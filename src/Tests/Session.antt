-- ===== src/Tests/Session.antt =====
-- A run of main against the concrete host, and a first start with an empty key directory.
use mathlib.Core.Path.{subst}
use moonlight_embedded_crash.Prelude.{◌≡◌, refl, sym, ◌⊎◌, true, false, none, some, [], ◌∷◌, ◌++◌}
use moonlight_embedded_crash.Prelude.Int.{pos, negsuc}
use moonlight_embedded_crash.Prelude.Text.{codes, str_eq}
use moonlight_embedded_crash.Tests.Host.{network, crypto, random, before}
use moonlight_embedded_crash.Tests.System.{pi_build, desktop}
use moonlight_embedded_crash.Tests.Settings.{memory}
use moonlight_embedded_crash.Client.{ok}
use moonlight_embedded_crash.Client.Hex.{bytes_to_hex}
use moonlight_embedded_crash.Client.Init.{KeyDir, unique_id, load_unique_id}
use moonlight_embedded_crash.Client.Init.Files.{load_unique_id-load_unique_id}
use moonlight_embedded_crash.Config.{Settings}
use moonlight_embedded_crash.Platform.{sdl}
use moonlight_embedded_crash.Main.{MainState, Parts, goes_on, exited}
use moonlight_embedded_crash.Main.Start.{do_stream, host_action, act, input_calls}
use moonlight_embedded_crash.Main.Streams.{connection_calls}
use moonlight_embedded_crash.Main.Paired.{NeedsPairing, act_unpaired}
use moonlight_embedded_crash.Main.Starts.{starts, act-starts}

abbrev parts : Parts
parts = record {
  build = pi_build;
  machine = desktop;
  have_libcec = false;
  network = network;
  crypto = crypto;
  random = random;
  stereo = pos 0;
  rikey = [];
}

abbrev to_stream : Settings
to_stream = record memory { config = record (memory.config) { action = some (codes "stream") } }

abbrev at_host : MainState
at_host = record { session = before; calls = [] }

streams : host_action (codes "stream") ≡ do_stream
unfolding host_action str_eq
streams = refl

act_unpaired_example : act parts [] to_stream sdl at_host ≡ (at_host, exited (negsuc 0))
act_unpaired_example =
    act_unpaired parts [] to_stream sdl at_host (subst NeedsPairing (sym streams) tt) refl

act-starts_example :
    let r = act parts [] to_stream sdl at_host in
    (starts r.0.calls ≡ starts [])
    ⊎ ((host_action (codes "stream") ≡ do_stream)
        × (false ≡ true)
        × (r.1 ≡ goes_on tt)
        × (r.0.calls
            ≡ ([] ++ input_calls parts to_stream sdl)
              ++ connection_calls parts to_stream.config to_stream.audio_device sdl
                  r.0.session.server))
act-starts_example = act-starts parts [] to_stream sdl at_host

abbrev empty_dir : KeyDir
empty_dir = record {
  id_file = none;
  id_writable = true;
  unique_data = 0 ∷ 1 ∷ 2 ∷ 3 ∷ 4 ∷ 5 ∷ 6 ∷ 255 ∷ [];
  certificate = none;
  generated = some (codes "PEM");
  is_certificate = λ text. true;
  key_opens = λ fresh. true;
}

abbrev next_start : KeyDir
next_start = record empty_dir { id_file = some (codes "00010203040506ff"); unique_data = [] }

wrote : load_unique_id empty_dir ≡ ok (some (codes "00010203040506ff"))
unfolding load_unique_id unique_id bytes_to_hex
wrote = refl

load_unique_id-load_unique_id_example :
    (codes "00010203040506ff" ≡ bytes_to_hex empty_dir.unique_data)
    × (unique_id empty_dir ≡ codes "00010203040506ff")
    × (unique_id next_start ≡ codes "00010203040506ff")
    × (load_unique_id next_start ≡ ok none)
load_unique_id-load_unique_id_example =
    load_unique_id-load_unique_id empty_dir next_start (codes "00010203040506ff") refl refl wrote
      refl
