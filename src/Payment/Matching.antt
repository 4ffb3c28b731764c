-- ===== src/Payment/Matching.antt =====
-- The transfer that findUniqueTransferIndex returns is the only free one that its predicate
-- accepts.
use nftlox.Prelude.{
  ◌≢◌, ℕ, zero, suc, ◌+◌, ◌≡◌, refl, sym, ap, ◌∙◌, Bool, true, false, ◌||◌, some, List, [], ◌∷◌,
  any_where, arith, Bool-cases, inl, inr,
}
use nftlox.Result.{ok}
use nftlox.Operation.{TransferDetail}
use nftlox.Payment.Transfers.{has_index, candidates, the_only, find_unique_transfer_index}
use nftlox.Router.Payment.{transfer_at}

shift : (k j : ℕ) → k + suc j ≡ suc k + j
shift k j = omega arith

pub from_zero : (j : ℕ) → 0 + j ≡ j
from_zero j = omega arith

-- Every free transfer that is accepted is found.
candidates_complete :
    (predicate : TransferDetail → Bool) (taken : ℕ → Bool) (k j : ℕ) (ts : List TransferDetail)
    (u : TransferDetail)
    → transfer_at j ts ≡ some u
    → predicate u ≡ true
    → taken (k + j) ≡ false
    → has_index (k + j) (candidates predicate taken k ts) ≡ true
unfolding transfer_at candidates has_index any_where
candidates_complete predicate taken k j [] u h p f = ground (arith, h)
candidates_complete predicate taken k zero (t ∷ ts) u h p f = ground (arith, h, p, f)
candidates_complete predicate taken k (suc j) (t ∷ ts) u h p f =
    let rest =
      candidates_complete predicate taken (suc k) j ts u h p (ap taken (sym (shift k j)) ∙ f) in
    ground (arith, rest, shift k j)

-- The transfer that stands behind an index of the list of candidates.
pub record Found (predicate : TransferDetail → Bool) (taken : ℕ → Bool) (k : ℕ)
    (ts : List TransferDetail) (x : ℕ) : Type 0 where
  pub offset : ℕ
  pub position : x ≡ k + offset
  pub free : taken x ≡ false
  pub found : TransferDetail
  pub there : transfer_at offset ts ≡ some found
  pub accepted : predicate found ≡ true

Found-later :
    (predicate : TransferDetail → Bool) (taken : ℕ → Bool) (k : ℕ) (t : TransferDetail)
    (ts : List TransferDetail) (x : ℕ)
    → Found predicate taken (suc k) ts x
    → Found predicate taken k (t ∷ ts) x
unfolding transfer_at
Found-later predicate taken k t ts x f = record {
  offset = suc f.offset;
  position = f.position ∙ sym (shift k f.offset);
  free = f.free;
  found = f.found;
  there = f.there;
  accepted = f.accepted;
}

candidates-head :
    (predicate : TransferDetail → Bool) (taken : ℕ → Bool) (k : ℕ) (t : TransferDetail)
    (ts : List TransferDetail) (x : ℕ)
    → has_index x (candidates predicate taken k (t ∷ ts)) ≡ true
    → has_index x (candidates predicate taken (suc k) ts) ≡ false
    → (x ≡ k) × (taken k ≡ false) × (predicate t ≡ true)
unfolding candidates has_index any_where
candidates-head predicate taken k t ts x h n =
    (ground (arith, h, n), ground (arith, h, n), ground (arith, h, n))

no_candidate :
    (predicate : TransferDetail → Bool) (taken : ℕ → Bool) (k x : ℕ)
    → has_index x (candidates predicate taken k []) ≢ true
unfolding candidates has_index any_where
no_candidate predicate taken k x = ground arith

pub candidates-Found :
    (predicate : TransferDetail → Bool) (taken : ℕ → Bool) (k : ℕ) (ts : List TransferDetail)
    (x : ℕ)
    → has_index x (candidates predicate taken k ts) ≡ true
    → Found predicate taken k ts x
unfolding transfer_at
candidates-Found predicate taken k [] x h = absurd (no_candidate predicate taken k x h)
candidates-Found predicate taken k (t ∷ ts) x h =
    elim (Bool-cases (has_index x (candidates predicate taken (suc k) ts))) [
      | inl l ↦
          Found-later predicate taken k t ts x (candidates-Found predicate taken (suc k) ts x l)
      | inr n ↦
          let (at, free, accepted) = candidates-head predicate taken k t ts x h n in
          record {
            offset = zero;
            position = ground (arith, at);
            free = ap taken at ∙ free;
            found = t;
            there = refl;
            accepted = accepted;
          }
    ]

pub the_only-inv : (l : List ℕ) (i : ℕ) → the_only l ≡ ok i → l ≡ i ∷ []
unfolding the_only
the_only-inv l i h = ground (arith, h)

pub is_head : (i : ℕ) → has_index i (i ∷ []) ≡ true
unfolding has_index any_where
is_head i = ground arith

is_only : (i j : ℕ) → has_index j (i ∷ []) ≡ true → j ≡ i
unfolding has_index any_where
is_only i j h = ground (arith, h)

find-candidates :
    (ts : List TransferDetail) (consumed staged : List ℕ) (predicate : TransferDetail → Bool)
    (i : ℕ)
    → find_unique_transfer_index ts consumed staged predicate ≡ ok i
    → candidates predicate (λ x. has_index x consumed || has_index x staged) 0 ts ≡ i ∷ []
unfolding find_unique_transfer_index
find-candidates ts consumed staged predicate i h = the_only-inv _ i h

-- What a match is worth.
pub record UniqueMatch (ts : List TransferDetail) (consumed staged : List ℕ)
    (predicate : TransferDetail → Bool) (i : ℕ) : Type 0 where
  pub matched : TransferDetail
  pub there : transfer_at i ts ≡ some matched
  pub accepted : predicate matched ≡ true
  pub free : (has_index i consumed || has_index i staged) ≡ false
  pub only :
      (j : ℕ) (u : TransferDetail)
      → transfer_at j ts ≡ some u
      → predicate u ≡ true
      → (has_index j consumed || has_index j staged) ≡ false
      → j ≡ i

-- The index that is returned is of a transfer that the predicate accepts and that is neither
-- consumed nor staged, and every such transfer has this index.
pub find_unique_transfer_index-UniqueMatch :
    (ts : List TransferDetail) (consumed staged : List ℕ) (predicate : TransferDetail → Bool)
    (i : ℕ)
    → find_unique_transfer_index ts consumed staged predicate ≡ ok i
    → UniqueMatch ts consumed staged predicate i
find_unique_transfer_index-UniqueMatch ts consumed staged predicate i h =
    let taken = λ (x : ℕ). has_index x consumed || has_index x staged in
    let e = find-candidates ts consumed staged predicate i h in
    let f = candidates-Found predicate taken 0 ts i (ap (has_index i) e ∙ is_head i) in
    record {
      matched = f.found;
      there = ap (λ (x : ℕ). transfer_at x ts) (f.position ∙ from_zero f.offset) ∙ f.there;
      accepted = f.accepted;
      free = f.free;
      only = λ j u there accepted free. is_only i j (
          sym (ap (has_index j) e)
          ∙ ap (λ (x : ℕ). has_index x (candidates predicate taken 0 ts)) (sym (from_zero j))
          ∙ candidates_complete predicate taken 0 j ts u there accepted
              (ap taken (from_zero j) ∙ free));
    }
