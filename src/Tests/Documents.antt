-- ===== src/Tests/Documents.antt =====
-- xml_search and xml_applist on concrete answers.
use moonlight_embedded_crash.Prelude.{◌≡◌, refl, true, false, some, List, [], ◌∷◌, ◌++◌}
use moonlight_embedded_crash.Prelude.Text.{codes, str_eq}
use moonlight_embedded_crash.Xml.{start_element, end_element, Expat, xml_search, xml_applist}
use moonlight_embedded_crash.Xml.Search.{
  element, text, Forest, empty, cons, forest_events, forest_text, xml_search-forest_text,
}
use moonlight_embedded_crash.Xml.AppList.{Game, games_events, listed, xml_applist-listed}

-- <root><paired>1</paired><other>2</other></root>
abbrev paired : Forest
paired =
    cons
      (element (codes "root") (
        cons (element (codes "paired") (cons (text (codes "1")) empty))
          (cons (element (codes "other") (cons (text (codes "2")) empty)) empty)))
      empty

abbrev parse_paired : Expat
parse_paired _ = record { events = forest_events paired; accepted = true }

xml_search-forest_text_example :
    xml_search parse_paired [] (codes "paired") ≡ some (forest_text (codes "paired") false paired)
xml_search-forest_text_example = xml_search-forest_text parse_paired [] (codes "paired") paired refl

paired_text : forest_text (codes "paired") false paired ≡ codes "1"
unfolding str_eq
paired_text = refl

abbrev games : List Game
games =
    record { title = codes "Steam"; id = codes "12" }
    ∷ record { title = codes "Doom"; id = codes "7" }
    ∷ []

abbrev parse_games : Expat
parse_games _ = record {
  events = start_element (codes "root") ∷ (games_events games ++ end_element (codes "root") ∷ []);
  accepted = true;
}

xml_applist-listed_example : xml_applist parse_games [] ≡ some (listed games [])
xml_applist-listed_example = xml_applist-listed parse_games [] games refl
