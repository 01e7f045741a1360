-- ===== src/Pbft/Select.antt =====
-- What a new view starts from: pbft/viewchange.go, and `selectInitialCheckpoint` of pbft/core.go.
pub mod Loop
pub mod Assign
pub mod Listings
pub mod Initial
mod Tests
use spree.Base.{
  ℕ, zero, suc, ◌+◌, Bool, true, false, not, ◌&&◌, ◌||◌, Option, none, some, List, [], ◌∷◌, ◌++◌,
  Bytes, leb, ltb, any, count, length, map, add64, ◌==◌, nat_eq, list_eq, if◌then◌else◌, get_or,
}
use spree.Base.Map.{Map, lookup, put, keep_entries}
use spree.Pbft.Messages.{CEntry, PqEntry, ViewChange, c_entry_eq}
use spree.Pbft.Core.{Config}
use spree.Pbft.Quorum.{intersection_quorum}

-- Every member passes the test.
abbrev pub every {ℓ} : {A : Type ℓ} → (A → Bool) → List A → Bool
every p [] = true
every p (x ∷ xs) = p x && every p xs

abbrev pub is_valid_pq : Config → ViewChange → PqEntry → Bool
is_valid_pq c vc p =
    ltb p.view vc.view && (ltb vc.h p.sequence_number && leb p.sequence_number (add64 vc.h c.l))

abbrev pub is_valid_c : Config → ViewChange → CEntry → Bool
is_valid_c c vc e = leb vc.h e.sequence_number && leb e.sequence_number (add64 vc.h c.l)

-- `correctViewChange`
unfoldable pub correct_view_change : Config → ViewChange → Bool
correct_view_change c vc =
    every (is_valid_pq c vc) (vc.pset ++ vc.qset) && every (is_valid_c c vc) vc.cset

-- The test that sends the code to `mpLoop`: an entry for `n` of a later view, or of the same view
-- with another digest.
abbrev pub conflicts : ℕ → PqEntry → PqEntry → Bool
conflicts n em emp =
    n == emp.sequence_number
    && not (ltb emp.view em.view || (emp.view == em.view && emp.batch_digest == em.batch_digest))

-- A1: this message's log starts below `n`, and its P set does not speak against `em`.
abbrev pub supports : ℕ → PqEntry → ViewChange → Bool
supports n em mp = not (leb n mp.h) && not (any (conflicts n em) mp.pset)

-- A2: the entry shows that the request was pre-prepared, in this view or a later one.
abbrev pub vouches : ℕ → PqEntry → PqEntry → Bool
vouches n em emp =
    n == emp.sequence_number && (leb em.view emp.view && emp.batch_digest == em.batch_digest)

-- The second count: one for each entry that vouches, over all Q sets.
abbrev pub count_vouchers : ℕ → PqEntry → List ViewChange → ℕ
count_vouchers n em [] = 0
count_vouchers n em (mp ∷ rest) = count (vouches n em) mp.qset + count_vouchers n em rest

abbrev pub is_selectable : Config → List ViewChange → ℕ → PqEntry → Bool
is_selectable c vset n em =
    leb (intersection_quorum c) (count (supports n em) vset)
    && leb (c.f + 1) (count_vouchers n em vset)

abbrev pub find_entry : (PqEntry → Bool) → List PqEntry → Option PqEntry
find_entry p [] = none
find_entry p (x ∷ xs) = let rest = find_entry p xs in if p x then some x else rest

abbrev pub or_else {ℓ} : {A : Type ℓ} → Option A → Option A → Option A
or_else (some a) rest = some a
or_else none rest = rest

-- The first entry of a P set, in the order of the loops, that may be selected for `n`.
abbrev pub find_selectable : Config → List ViewChange → List ViewChange → ℕ → Option PqEntry
find_selectable c vset [] n = none
find_selectable c vset (m ∷ ms) n =
    or_else (find_entry (is_selectable c vset n) m.pset) (find_selectable c vset ms n)

abbrev pub has_no_entry : ℕ → ViewChange → Bool
has_no_entry n m = not (any (λ (em : PqEntry). em.sequence_number == n) m.pset)

-- `nLoop`, for `rounds` numbers from `n` on: the assignments and `maxN`.
unfoldable pub n_loop :
    Config → List ViewChange → ℕ → ℕ → Map ℕ Bytes → ℕ → Option (Map ℕ Bytes × ℕ)
n_loop c vset zero n msg_list max_n = some (msg_list, max_n)
n_loop c vset (suc rounds) n msg_list max_n = elim (find_selectable c vset vset n) [
  | some em ↦ n_loop c vset rounds (n + 1) (put n em.batch_digest msg_list) n
  | none ↦ elim (leb (intersection_quorum c) (count (has_no_entry n) vset)) [
    | true ↦ n_loop c vset rounds (n + 1) (put n [] msg_list) max_n
    | false ↦ none
  ]
]

-- "prune top null requests"
abbrev pub prune : Map ℕ Bytes × ℕ → Map ℕ Bytes
prune (msg_list, max_n) =
    keep_entries (λ (e : ℕ × Bytes). not (ltb max_n e.0 && e.1 == [])) msg_list

abbrev pub map_option {ℓ κ} : {A : Type ℓ} {B : Type κ} → (A → B) → Option A → Option B
map_option g none = none
map_option g (some a) = some (g a)

-- How often `nLoop` runs: not at all where `h + L` wraps round below `h + 1`.
abbrev pub n_rounds : Config → ℕ → ℕ
n_rounds c h = if leb (add64 h 1) (add64 h c.l) then c.l else 0

-- `assignSequenceNumbers`; `none` is the nil map
unfoldable pub assign_sequence_numbers : Config → List ViewChange → ℕ → Option (Map ℕ Bytes)
unfolding n_loop
assign_sequence_numbers c vset h =
    map_option prune (n_loop c vset (n_rounds c h) (add64 h 1) [] (add64 h 1))

-- The map `checkpoints`: who has each checkpoint, one entry for each time that it is listed.
abbrev pub add_listed :
    ViewChange → List CEntry → Map CEntry (List ViewChange) → Map CEntry (List ViewChange)
add_listed vc [] acc = acc
add_listed vc (e ∷ es) acc = add_listed vc es (put e (get_or (lookup e acc) [] ++ (vc ∷ [])) acc)

abbrev pub listed : List ViewChange → Map CEntry (List ViewChange) → Map CEntry (List ViewChange)
listed [] acc = acc
listed (vc ∷ rest) acc = listed rest (add_listed vc vc.cset acc)

abbrev pub starts_at_or_below : ℕ → ViewChange → Bool
starts_at_or_below n vc = leb vc.h n

abbrev pub is_candidate : Config → List ViewChange → CEntry → List ViewChange → Bool
is_candidate c vset e vc_list =
    ltb c.f (length vc_list)
    && leb (intersection_quorum c) (count (starts_at_or_below e.sequence_number) vset)

-- The variables `checkpoint`, `ok` and `replicas`.
pub record Choice : Type 0 where
  pub checkpoint : CEntry
  pub chosen : Bool
  pub replicas : List ℕ

abbrev pub consider : Config → List ViewChange → CEntry → List ViewChange → Choice → Choice
consider c vset e vc_list ch =
    if not (is_candidate c vset e vc_list)
    then ch
    else if leb ch.checkpoint.sequence_number e.sequence_number
    then record {
      checkpoint = e;
      chosen = true;
      replicas = map (λ (vc : ViewChange). vc.replica_id) vc_list;
    }
    else record ch { replicas = map (λ (vc : ViewChange). vc.replica_id) vc_list }

unfoldable pub choose : Config → List ViewChange → Map CEntry (List ViewChange) → Choice → Choice
choose c vset [] ch = ch
choose c vset ((e, vc_list) ∷ rest) ch = choose c vset rest (consider c vset e vc_list ch)

abbrev pub no_choice : Choice
no_choice = record {
  checkpoint = record { sequence_number = 0; id = [] };
  chosen = false;
  replicas = [];
}

-- `selectInitialCheckpoint`
unfoldable pub select_initial_checkpoint : Config → List ViewChange → Choice
unfolding choose
select_initial_checkpoint c vset = choose c vset (listed vset []) no_choice
