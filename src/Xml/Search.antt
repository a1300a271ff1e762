-- ===== src/Xml/Search.antt =====
-- xml_search against the document: which text it finds.
use mathlib.Core.List.{append-nil, append_assoc}
use moonlight_embedded_crash.Prelude.{
  ℕ, zero, suc, ◌≡◌, refl, sym, ap, ◌∙◌, inl, inr, Bool, true, false, ◌||◌, some, List, [], ◌∷◌,
  ◌++◌, arith, ltb, if◌then◌else◌, Bool-cases,
}
use moonlight_embedded_crash.Prelude.Int.{pos, ◌+ℤ◌, ◌-ℤ◌, ltb_ℤ, int_laws, eq_of_parts}
use moonlight_embedded_crash.Prelude.Text.{Bytes, str_eq}
use moonlight_embedded_crash.Xml.{
  Event, start_element, end_element, characters, Expat, Query, write_data, search_event,
  search_events, xml_search,
}

-- A document: its elements with what they hold, and its texts.
mutual
  pub data Node : Type 0 where
    element : Bytes → Forest → Node
    text : Bytes → Node

  pub data Forest : Type 0 where
    empty : Forest
    cons : Node → Forest → Forest

-- The calls that a parser makes for a document.
abbrev mutual
  pub node_events : Node → List Event
  node_events (element name inner) =
      start_element name ∷ (forest_events inner ++ end_element name ∷ [])
  node_events (text s) = characters s ∷ []

  pub forest_events : Forest → List Event
  forest_events empty = []
  forest_events (cons n ns) = node_events n ++ forest_events ns

-- All text that stands inside an element named `tag`, in the order of the document. `inside` says
-- whether the document itself stands in one.
abbrev mutual
  pub node_text : Bytes → Bool → Node → Bytes
  node_text tag inside (element name inner) = forest_text tag (inside || str_eq tag name) inner
  node_text tag inside (text s) = if inside then s else []

  pub forest_text : Bytes → Bool → Forest → Bytes
  forest_text tag inside empty = []
  forest_text tag inside (cons n ns) = node_text tag inside n ++ forest_text tag inside ns

search_events-append :
    (s t : List Event) (q : Query Bytes)
    → search_events (s ++ t) q ≡ search_events t (search_events s q)
unfolding search_events
search_events-append [] t q = refl
search_events-append (e ∷ s) t q = search_events-append s t (search_event e q)

abbrev at : Bytes → ℕ → Bytes → Query Bytes
at tag k memory = record { memory = memory; start = pos k; data_ = tag }

abbrev deeper : Bool → ℕ → ℕ
deeper true k = suc k
deeper false k = k

one_more : (k : ℕ) → pos k +ℤ pos 1 ≡ pos (suc k)
one_more k = eq_of_parts _ _ (omega int_laws)

one_less : (k : ℕ) → pos (suc k) -ℤ pos 1 ≡ pos k
one_less k = eq_of_parts _ _ (omega int_laws)

start_element-at :
    (tag name memory : Bytes) (k : ℕ)
    → search_event (start_element name) (at tag k memory)
      ≡ at tag (deeper (str_eq tag name) k) memory
unfolding search_event
start_element-at tag name memory k = elim (Bool-cases (str_eq tag name)) [
  | inl e ↦ rw e (ap (λ z. record { memory = memory; start = z; data_ = tag }) (one_more k))
  | inr e ↦ rw e refl
]

end_element-at :
    (tag name memory : Bytes) (k : ℕ)
    → search_event (end_element name) (at tag (deeper (str_eq tag name) k) memory) ≡ at tag k memory
unfolding search_event
end_element-at tag name memory k = elim (Bool-cases (str_eq tag name)) [
  | inl e ↦ rw e (ap (λ z. record { memory = memory; start = z; data_ = tag }) (one_less k))
  | inr e ↦ rw e refl
]

characters-at :
    (tag s memory : Bytes) (k : ℕ)
    → search_event (characters s) (at tag k memory)
      ≡ at tag k (memory ++ (if ltb 0 k then s else []))
unfolding search_event write_data
characters-at tag s memory zero = ap (at tag 0) (sym (append-nil memory))
characters-at tag s memory (suc k) =
    (let a : ltb_ℤ (pos 0) (pos (suc k)) ≡ true = ground arith in
      let b : ltb 0 (suc k) ≡ true = ground arith in rw (a, b) refl)

deeper-inside : (b : Bool) (k : ℕ) → ltb 0 (deeper b k) ≡ ltb 0 k || b
deeper-inside true k = ground arith
deeper-inside false k = ground arith

mutual
  unfolding search_events

  node-at :
      (n : Node) (tag memory : Bytes) (k : ℕ)
      → search_events (node_events n) (at tag k memory)
        ≡ at tag k (memory ++ node_text tag (ltb 0 k) n)
  node-at (element name inner) tag memory k =
      let d : ℕ = deeper (str_eq tag name) k in
      ap (search_events (forest_events inner ++ end_element name ∷ []))
        (start_element-at tag name memory k)
      ∙ search_events-append (forest_events inner) (end_element name ∷ []) (at tag d memory)
      ∙ ap (search_event (end_element name)) (forest-at inner tag memory d)
      ∙ end_element-at tag name (memory ++ forest_text tag (ltb 0 d) inner) k
      ∙ ap (λ b. at tag k (memory ++ forest_text tag b inner)) (deeper-inside (str_eq tag name) k)
  node-at (text s) tag memory k = characters-at tag s memory k

  forest-at :
      (ns : Forest) (tag memory : Bytes) (k : ℕ)
      → search_events (forest_events ns) (at tag k memory)
        ≡ at tag k (memory ++ forest_text tag (ltb 0 k) ns)
  forest-at empty tag memory k = ap (at tag k) (sym (append-nil memory))
  forest-at (cons n ns) tag memory k =
      search_events-append (node_events n) (forest_events ns) (at tag k memory)
      ∙ ap (search_events (forest_events ns)) (node-at n tag memory k)
      ∙ forest-at ns tag (memory ++ node_text tag (ltb 0 k) n) k
      ∙ ap (at tag k)
          (append_assoc memory (node_text tag (ltb 0 k) n) (forest_text tag (ltb 0 k) ns))

-- On a text that parses to a document, xml_search finds exactly the text inside the elements of
-- the name, however they nest and whatever stands between them; there may be none.
pub xml_search-forest_text :
    (expat : Expat) (data_ node : Bytes) (document : Forest)
    → expat data_ ≡ record { events = forest_events document; accepted = true }
    → xml_search expat data_ node ≡ some (forest_text node false document)
unfolding xml_search
xml_search-forest_text expat data_ node document h =
    rw h (ap (λ (q : Query Bytes). some q.memory) (forest-at document node [] 0))
