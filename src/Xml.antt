-- ===== src/Xml.antt =====
-- libgamestream/xml.c: the handlers that expat calls while it parses an answer of the host, and
-- the two searches. Expat is a parameter: the calls it makes for a text, and whether it accepts it.
pub mod Search
pub mod AppList
use moonlight_embedded_crash.Libc.Decimal.{atoi}
use mathlib.Core.Path.{subst}
use mathlib.Core.List.{append-nil, append_assoc}
use moonlight_embedded_crash.Prelude.{
  ℕ, zero, suc, ◌+◌, ◌-◌, ◌*◌, ◌/◌, ◌%◌, ◌^◌, ◌≤◌, ◌<◌, ◌≡◌, refl, sym, ap, ◌∙◌, fun_ext, ◌≢◌, ◌↔◌,
  ◌⊎◌, inl, inr, Bool, true, false, not, ◌&&◌, ◌||◌, Option, none, some, List, [], ◌∷◌, ◌++◌, map,
  arith, ltb, leb, ◌==◌, if◌then◌else◌, ltb→lt, lt→ltb, leb→le, ==_iff, ==_refl, Bool-cases,
  Option-cases, length, get_elem?, set, take, length-append, length-set, get_elem?-set_self,
  get_elem?-set_ne,
}
use moonlight_embedded_crash.Prelude.Int.{
  ℤ, pos, negsuc, ◌+ℤ◌, ◌-ℤ◌, ◌*ℤ◌, quot, ◌≤ℤ◌, ◌<ℤ◌, ltb_ℤ, leb_ℤ, eq_ℤ, abs, to_short, to_char,
  to_int, IsShort, IsInt, int_laws, eq_of_parts, eq_ℤ_refl, eq_ℤ→eq,
}
use moonlight_embedded_crash.Prelude.Bits.{
  Bits, bits, no_bits, ◌|b◌, ◌&b◌, ~b, one_bit, sign_extend, all_below, eq_bits, nonzero, zero_bit,
  nonzero_of_bit, eq_bits_sound, eq_bits_intro,
}
use moonlight_embedded_crash.Prelude.Text.{Bytes, codes, str_eq, is_space, str_eq_refl, str_eq→eq}
use moonlight_embedded_crash.Prelude.Process.{
  Process, running, exited, ◌>>=◌, exit_failure, minus_one,
}

-- A call of one of the three handlers.
pub data Event : Type 0 where
  start_element : Bytes → Event
  end_element : Bytes → Event
  characters : Bytes → Event

-- XML_Parse: the calls of the handlers, and whether it returned a value other than 0.
pub record Parsed : Type 0 where
  pub events : List Event
  pub accepted : Bool

abbrev pub Expat : Type 0
Expat = Bytes → Parsed

-- struct xml_query: the text in `memory`, `start`, and what `data` points to.
pub record Query (D : Type 0) : Type 0 where
  pub memory : Bytes
  pub start : ℤ
  pub data_ : D

-- _xml_write_data
unfoldable pub write_data : {D : Type 0} → Bytes → Query D → Query D
write_data s q = if ltb_ℤ (pos 0) q.start then record q { memory = q.memory ++ s } else q

-- The handlers of xml_search: _xml_start_element, _xml_end_element and _xml_write_data.
unfoldable pub search_event : Event → Query Bytes → Query Bytes
search_event (start_element name) q =
    if str_eq q.data_ name then record q { start = q.start +ℤ pos 1 } else q
search_event (end_element name) q =
    if str_eq q.data_ name then record q { start = q.start -ℤ pos 1 } else q
search_event (characters s) q = write_data s q

unfoldable pub search_events : List Event → Query Bytes → Query Bytes
search_events [] q = q
search_events (e ∷ es) q = search_events es (search_event e q)

-- xml_search: the text, or nothing for GS_INVALID.
unfoldable pub xml_search : Expat → Bytes → Bytes → Option Bytes
xml_search expat text node =
    let parsed = expat text in
    let q = search_events parsed.events (record { memory = []; start = pos 0; data_ = node }) in
    if parsed.accepted then some q.memory else none

-- APP_LIST: a list of its entries.
pub record App : Type 0 where
  pub id : ℤ
  pub name : Option Bytes

-- _xml_start_applist_element
unfoldable pub start_applist_element : Bytes → Query (List App) → Query (List App)
start_applist_element name q =
    if str_eq (codes "App") name
    then record q { data_ = record { id = pos 0; name = none } ∷ q.data_ }
    else if str_eq (codes "ID") name || str_eq (codes "AppTitle") name
    then record q { memory = []; start = pos 1 }
    else q

-- What is done to the first entry.
unfoldable pub fill_app : Bytes → Bytes → App → App
fill_app name memory app =
    if str_eq (codes "ID") name
    then record app { id = atoi memory }
    else if str_eq (codes "AppTitle") name
    then record app { name = some memory }
    else app

-- The body of the `if` in _xml_end_applist_element.
unfoldable pub end_started : Bytes → Bytes → List App → Query (List App) → Query (List App)
end_started name memory [] q = q
end_started name memory (app ∷ apps) q = record q {
  data_ = fill_app name memory app ∷ apps;
  start = pos 0;
}

-- _xml_end_applist_element
unfoldable pub end_applist_element : Bytes → Query (List App) → Query (List App)
end_applist_element name q = if eq_ℤ q.start (pos 0) then q else end_started name q.memory q.data_ q

unfoldable pub applist_event : Event → Query (List App) → Query (List App)
applist_event (start_element name) q = start_applist_element name q
applist_event (end_element name) q = end_applist_element name q
applist_event (characters s) q = write_data s q

unfoldable pub applist_events : List Event → Query (List App) → Query (List App)
applist_events [] q = q
applist_events (e ∷ es) q = applist_events es (applist_event e q)

-- xml_applist: the list, or nothing for GS_INVALID.
unfoldable pub xml_applist : Expat → Bytes → Option (List App)
xml_applist expat text =
    let parsed = expat text in
    let q = applist_events parsed.events (record { memory = []; start = pos 0; data_ = [] }) in
    if parsed.accepted then some q.data_ else none
