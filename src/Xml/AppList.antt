-- ===== src/Xml/AppList.antt =====
-- xml_applist against a list of games.
use moonlight_embedded_crash.Prelude.{◌≡◌, refl, ap, ◌∙◌, true, some, List, [], ◌∷◌, ◌++◌}
use moonlight_embedded_crash.Prelude.Int.{pos}
use moonlight_embedded_crash.Prelude.Text.{Bytes, codes, str_eq}
use moonlight_embedded_crash.Xml.{
  Event, start_element, end_element, characters, Expat, Query, App, write_data,
  start_applist_element, fill_app, end_started, end_applist_element, applist_event, applist_events,
  xml_applist,
}
use moonlight_embedded_crash.Libc.Decimal.{atoi}

-- A game of the answer: its title, and its id as text.
pub record Game : Type 0 where
  pub title : Bytes
  pub id : Bytes

-- The calls for the element of a game.
abbrev pub game_events : Game → List Event
game_events g =
    start_element (codes "App")
    ∷ start_element (codes "AppTitle")
    ∷ characters g.title
    ∷ end_element (codes "AppTitle")
    ∷ start_element (codes "ID")
    ∷ characters g.id
    ∷ end_element (codes "ID")
    ∷ end_element (codes "App")
    ∷ []

abbrev pub games_events : List Game → List Event
games_events [] = []
games_events (g ∷ gs) = game_events g ++ games_events gs

abbrev pub app_of : Game → App
app_of g = record { id = atoi g.id; name = some g.title }

-- The apps of the games, the last game first, in front of `apps`.
abbrev pub listed : List Game → List App → List App
listed [] apps = apps
listed (g ∷ gs) apps = listed gs (app_of g ∷ apps)

abbrev waiting : Bytes → List App → Query (List App)
waiting memory apps = record { memory = memory; start = pos 0; data_ = apps }

applist_events-game :
    (g : Game) (es : List Event) (memory : Bytes) (apps : List App)
    → applist_events (game_events g ++ es) (waiting memory apps)
      ≡ applist_events es (waiting g.id (app_of g ∷ apps))
unfolding applist_events applist_event start_applist_element end_applist_element end_started
    fill_app write_data str_eq
applist_events-game g es memory apps = refl

applist_events-games :
    (gs : List Game) (memory : Bytes) (apps : List App)
    → (applist_events
        (games_events gs ++ end_element (codes "root") ∷ [])
        (waiting memory apps)).data_
      ≡ listed gs apps
unfolding applist_events applist_event end_applist_element
applist_events-games [] memory apps = refl
applist_events-games (g ∷ gs) memory apps =
    ap (λ (q : Query (List App)). q.data_)
      (applist_events-game g (games_events gs ++ end_element (codes "root") ∷ []) memory apps)
    ∙ applist_events-games gs g.id (app_of g ∷ apps)

-- On an answer that parses to a list of games, each with its title in front of its id, xml_applist
-- gives one entry per game, with that title and the number that atoi reads from that id, in the
-- reverse of the order of the answer.
pub xml_applist-listed :
    (expat : Expat) (text : Bytes) (gs : List Game)
    → expat text ≡ record {
      events = start_element (codes "root") ∷ (games_events gs ++ end_element (codes "root") ∷ []);
      accepted = true;
    }
    → xml_applist expat text ≡ some (listed gs [])
unfolding xml_applist applist_events applist_event start_applist_element str_eq
xml_applist-listed expat text gs h = rw h (ap some (applist_events-games gs [] []))
