-- ===== src/Sps/Buffers.antt =====
-- libgamestream/sps.c, gs_sps_fix: the list of buffers of a frame, and what it does to its head.
-- LENTRY is moonlight-common-c's; sps.c uses its fields data, length and next.
use moonlight_embedded_crash.Prelude.{
  ℕ, suc, ◌%◌, Bool, false, ◌&&◌, Option, none, some, List, [], ◌∷◌, ◌++◌, ◌==◌, if◌then◌else◌,
  get_elem?,
}
use moonlight_embedded_crash.Prelude.Int.{ℤ, pos, negsuc, ◌+ℤ◌}
use mathlib.Core.Option
use moonlight_embedded_crash.Sps.{ParameterSet, Fixer, Flags, fix_sps}

-- Where a `data` pointer leads: to the bytes right behind an entry, `(char*) (entry + 1)`, or to
-- another allocation.
pub data Pointer : Type 0 where
  behind : ℕ → Pointer
  elsewhere : ℕ → Pointer

pub record Lentry : Type 0 where
  pub data_place : Pointer
  pub length : ℤ
  pub next : Option ℕ

-- The memory: the entries that are allocated, each under a number, the bytes that can be reached
-- from a place, and a number that no entry has had.
pub record Heap : Type 0 where
  pub entries : ℕ → Option Lentry
  pub bytes : Pointer → List ℕ
  pub fresh : ℕ

-- What sps.c uses of h264bitstream, on the stream's `sps` and the rest of its state, R: constants,
-- read_nal_unit on a buffer and its length, and write_nal_unit, which gets the room there is and
-- returns what it writes with its result.
pub record Codec (R : Type 0) : Type 0 where
  pub profile_baseline : ℕ
  pub profile_high : ℕ
  pub unit_sps : ℕ
  pub unit_pps : ℕ
  pub read_nal_unit : List ℕ → ℤ → R → ParameterSet → R × ParameterSet
  pub write_nal_unit : R → ParameterSet → ℕ → List ℕ × ℤ

pub record State (R : Type 0) : Type 0 where
  pub fixer : Fixer
  pub rest : R
  pub heap : Heap

-- What gs_sps_fix leaves: the state, `*head` and its result, which may be NULL.
pub record Fixed (R : Type 0) : Type 0 where
  pub state : State R
  pub head : ℕ
  pub result : Option ℕ

abbrev pub pointer_eq : Pointer → Pointer → Bool
pointer_eq (behind a) (behind b) = a == b
pointer_eq (elsewhere a) (elsewhere b) = a == b
pointer_eq (behind a) (elsewhere b) = false
pointer_eq (elsewhere a) (behind b) = false

-- Bytes that overwrite the first ones of a block: none where they do not fit, which C leaves open.
unfoldable pub overwrite : List ℕ → List ℕ → Option (List ℕ)
overwrite [] old = some old
overwrite (x ∷ xs) [] = none
overwrite (x ∷ xs) (y ∷ old) = Option.map (λ ys. x ∷ ys) (overwrite xs old)

-- naluHeader
abbrev pub nalu_header : List ℕ
nalu_header = 0 ∷ 0 ∷ 0 ∷ 1 ∷ []

-- `data + 4`
abbrev pub after_header : List ℕ → List ℕ
after_header (a ∷ b ∷ c ∷ d ∷ bytes) = bytes
after_header other = []

abbrev pub set_entry : ℕ → Option Lentry → (ℕ → Option Lentry) → ℕ → Option Lentry
set_entry k e entries j = if j == k then e else entries j

abbrev pub set_bytes : Pointer → List ℕ → (Pointer → List ℕ) → Pointer → List ℕ
set_bytes p block bytes q = if pointer_eq p q then block else bytes q

abbrev pub returned : {R : Type 0} → Option ℕ → ℕ → State R → Fixed R
returned result head st = record { state = st; head = head; result = result }

module _ {R : Type 0} (codec : Codec R) where
  open codec use {profile_baseline, profile_high, unit_sps, unit_pps, read_nal_unit, write_nal_unit}

  -- The header and the parameter set, of at most 124 bytes, and its length with the header.
  unfoldable pub written : R → ParameterSet → List ℕ
  written rest sps = nalu_header ++ (write_nal_unit rest sps 124).0

  unfoldable pub written_length : R → ParameterSet → ℤ
  written_length rest sps = (write_nal_unit rest sps 124).1 +ℤ pos 4

  -- The parameter set with the high profile.
  abbrev pub high : Fixer → ParameterSet
  high f = record (f.sps) { profile_idc = profile_high }

  -- The branch of replay_sps == 1 with the block that malloc gave, of which the code uses the entry
  -- alone: the new entry's data are the bytes behind the old one.
  unfoldable pub replay_entry : State R → ℕ → Lentry
  unfolding written_length
  replay_entry st head = record {
    data_place = behind head;
    length = written_length st.rest (high st.fixer);
    next = some head;
  }

  unfoldable pub replayed : State R → ℕ → List ℕ → List ℕ → Fixed R
  unfolding replay_entry
  replayed st head block bytes = returned (some st.heap.fresh) st.heap.fresh (record st {
    fixer = record (st.fixer) { sps = high st.fixer; replay_sps = 2 };
    heap = record {
      entries = set_entry st.heap.fresh (some (replay_entry st head)) st.heap.entries;
      bytes = set_bytes (behind head) bytes (set_bytes (behind st.heap.fresh) block st.heap.bytes);
      fresh = suc st.heap.fresh;
    };
  })

  unfoldable pub replay : State R → ℕ → List ℕ → Option (Fixed R)
  unfolding written overwrite replayed
  replay st head block =
      Option.map (replayed st head block)
        (overwrite (written st.rest (high st.fixer)) (st.heap.bytes (behind head)))

  -- The parameter set of an entry is read and fixed.
  unfoldable pub read_sps : Flags → State R → Lentry → State R
  read_sps flags st e =
      let read =
        read_nal_unit (after_header (st.heap.bytes e.data_place)) (e.length +ℤ negsuc 3) st.rest
          st.fixer.sps in
      record st {
        rest = read.0;
        fixer = fix_sps profile_baseline flags (record (st.fixer) { sps = read.1 });
      }

  -- The head is freed, and an entry with the fixed set takes its place.
  unfoldable pub sps_entry : State R → Lentry → Lentry
  unfolding written_length
  sps_entry st e = record {
    data_place = behind st.heap.fresh;
    length = written_length st.rest st.fixer.sps;
    next = e.next;
  }

  unfoldable pub replaced : State R → ℕ → Lentry → List ℕ → Fixed R
  unfolding sps_entry
  replaced st head e bytes = returned (some st.heap.fresh) st.heap.fresh (record st {
    heap = record {
      entries =
          set_entry st.heap.fresh (some (sps_entry st e)) (set_entry head none st.heap.entries);
      bytes = set_bytes (behind st.heap.fresh) bytes st.heap.bytes;
      fresh = suc st.heap.fresh;
    };
  })

  unfoldable pub replace : State R → ℕ → Lentry → List ℕ → Option (Fixed R)
  unfolding written overwrite replaced
  replace st head e block =
      Option.map (replaced st head e) (overwrite (written st.rest st.fixer.sps) block)

  -- `malloc` is the block that malloc gives behind the new entry, 128 bytes, or NULL.
  abbrev pub on_sps : Option (List ℕ) → State R → ℕ → Lentry → Option (Fixed R)
  on_sps none st head e = some (returned none head st)
  on_sps (some block) st head e = replace st head e block

  abbrev pub on_replay : Option (List ℕ) → State R → ℕ → Option (Fixed R)
  on_replay none st head = some (returned none head st)
  on_replay (some block) st head = replay st head block

  unfoldable pub on_pps : Flags → State R → State R
  on_pps flags st =
      if flags.baseline_hack && (st.fixer.replay_sps == 0)
      then record st { fixer = record (st.fixer) { replay_sps = 1 } }
      else st

  -- On the fifth byte of the data, whose low five bits are the unit's type.
  abbrev pub on_unit : Option (List ℕ) → Flags → State R → ℕ → Lentry → Option ℕ → Option (Fixed R)
  on_unit malloc flags st head e none = none
  on_unit malloc flags st head e (some byte) =
      if byte % 32 == unit_sps
      then on_sps malloc (read_sps flags st e) head e
      else if byte % 32 == unit_pps
      then some (returned (some head) head (on_pps flags st))
      else some (returned (some head) head st)

  abbrev pub on_entry : Option (List ℕ) → Flags → State R → ℕ → Option Lentry → Option (Fixed R)
  on_entry malloc flags st head none = none
  on_entry malloc flags st head (some e) =
      if st.fixer.replay_sps == 1
      then on_replay malloc st head
      else on_unit malloc flags st head e (get_elem? (st.heap.bytes e.data_place) 4)

  -- `*head` is the number of an entry: a list that is empty or was freed, data of less than five
  -- bytes, and a block that is too short for what is written, have no result, since C leaves open
  -- what happens.
  unfoldable pub gs_sps_fix : Option (List ℕ) → Flags → State R → ℕ → Option (Fixed R)
  gs_sps_fix malloc flags st head = on_entry malloc flags st head (st.heap.entries head)
