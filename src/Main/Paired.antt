-- ===== src/Main/Paired.antt =====
-- What main does for a host that has not paired with the client, and which calls an action leads to.
use moonlight_embedded_crash.Prelude.{if_true, if_false, ℕ, ◌≡◌, refl, true, false, List, []}
use moonlight_embedded_crash.Config.{or_else, Settings}
use moonlight_embedded_crash.Prelude.Int.{negsuc}
use moonlight_embedded_crash.Main.{goes_on, exited, MainState, Parts, pair_check}
use moonlight_embedded_crash.Main.Start.{
  act, HostAction, do_list, do_stream, do_pair, do_unpair, do_quit, invalid_action, host_action,
  perform,
}
use moonlight_embedded_crash.Platform.{Platform}

-- The actions that pair_check stands in front of.
abbrev pub NeedsPairing : HostAction → Type 0
NeedsPairing do_list = Unit
NeedsPairing do_stream = Unit
NeedsPairing do_quit = Unit
NeedsPairing _ = ⊥

module _ (parts : Parts) (randoms : List ℕ) where
  pub pair_check_unpaired :
      (s : MainState)
      → s.session.server.paired ≡ false
      → pair_check parts s ≡ (s, exited (negsuc 0))
  unfolding pair_check
  pair_check_unpaired s = if_false s.session.server.paired (s, goes_on tt) (s, exited (negsuc 0))

  pub pair_check_paired :
      (s : MainState) → s.session.server.paired ≡ true → pair_check parts s ≡ (s, goes_on tt)
  unfolding pair_check
  pair_check_paired s = if_true s.session.server.paired (s, goes_on tt) (s, exited (negsuc 0))

  perform_unpaired :
      (action : HostAction) (settings : Settings) (system : Platform) (s : MainState)
      → NeedsPairing action
      → s.session.server.paired ≡ false
      → perform parts randoms action settings system s ≡ (s, exited (negsuc 0))
  unfolding perform
  perform_unpaired do_list settings system s needs unpaired =
      rw (pair_check_unpaired s unpaired) refl
  perform_unpaired do_stream settings system s needs unpaired =
      rw (pair_check_unpaired s unpaired) refl
  perform_unpaired do_quit settings system s needs unpaired =
      rw (pair_check_unpaired s unpaired) refl
  perform_unpaired do_pair settings system s needs unpaired = absurd needs
  perform_unpaired do_unpair settings system s needs unpaired = absurd needs
  perform_unpaired invalid_action settings system s needs unpaired = absurd needs

  -- The actions list, stream and quit are refused with status -1 on a host that is not paired: no
  -- request is made of it, nothing is called, and no other data changes.
  pub act_unpaired :
      (settings : Settings) (system : Platform) (s : MainState)
      → NeedsPairing (host_action (or_else settings.config.action []))
      → s.session.server.paired ≡ false
      → act parts randoms settings system s ≡ (s, exited (negsuc 0))
  unfolding act
  act_unpaired settings system s needs unpaired =
      perform_unpaired (host_action (or_else settings.config.action [])) settings system s needs
        unpaired
