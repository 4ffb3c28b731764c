-- ===== src/Governance/Collections.antt =====
-- Data operators and archived collections.
use nftlox.Prelude.{
  String, Bool, true, false, not, ◌&&◌, ◌≡◌, refl, none, some, List, [], ◌∷◌, ◌==◌, eq_iff,
  if◌then◌else◌, arith, inl, inr, Option-cases, Bool-cases, any_where, keep_where,
}
use nftlox.Result.{ok}
use nftlox.World.{World, CollectionRow, DataOperatorRow}
use nftlox.Operation.{ParsedOperation}
use nftlox.Queries.Allowances.{get_collection_rules}
use nftlox.Handlers.Collections.{
  is_operator, has_data_operator_approval, delete_data_operator, upsert_data_operator,
  approve_operator, in_collection,
}

module _ {A : Type 0} where
  -- What is kept of a list, as a test sees it.
  any_where-keep_where :
      (p q : A → Bool) (xs : List A)
      → any_where p (keep_where q xs) ≡ any_where (λ x. q x && p x) xs
  unfolding any_where keep_where
  any_where-keep_where p q [] = refl
  any_where-keep_where p q (x ∷ xs) = ground (arith, any_where-keep_where p q xs)

  any_where_same :
      (p q : A → Bool) (xs : List A) → ((x : A) → p x ≡ q x) → any_where p xs ≡ any_where q xs
  unfolding any_where
  any_where_same p q [] h = refl
  any_where_same p q (x ∷ xs) h = ground (arith, h x, any_where_same p q xs h)

  any_where_none : (p : A → Bool) (xs : List A) → ((x : A) → p x ≡ false) → any_where p xs ≡ false
  unfolding any_where
  any_where_none p [] h = refl
  any_where_none p (x ∷ xs) h = ground (arith, h x, any_where_none p xs h)

-- Another pair's approval survives the removal of a pair.
pair_kept :
    (c o c' o' : String) (r : DataOperatorRow)
    → ((c == c') && (o == o')) ≡ false
    → (not (is_operator c o r) && is_operator c' o' r) ≡ is_operator c' o' r
pair_kept c o c' o' r h = ground (
  arith,
  h,
  eq_iff r.collection_id c,
  eq_iff r.collection_id c',
  eq_iff r.operator o,
  eq_iff r.operator o',
  eq_iff c c',
  eq_iff o o',
)

pair_removed :
    (c o c' o' : String) (r : DataOperatorRow)
    → ((c == c') && (o == o')) ≡ true
    → (not (is_operator c o r) && is_operator c' o' r) ≡ false
pair_removed c o c' o' r h = ground (arith, h, eq_iff c c', eq_iff o o')

delete_data_operator-approval :
    (c o c' o' : String) (s : World)
    → has_data_operator_approval c' o' (delete_data_operator c o s)
      ≡ (if (c == c') && (o == o') then false else has_data_operator_approval c' o' s)
unfolding has_data_operator_approval delete_data_operator
delete_data_operator-approval c o c' o' s =
    let rows = s.db.data_operators in
    let law = any_where-keep_where (is_operator c' o') (λ r. not (is_operator c o r)) rows in
    elim (Bool-cases ((c == c') && (o == o'))) [
      | inl e ↦ ground (
        arith,
        e,
        law,
        any_where_none (λ r. not (is_operator c o r) && is_operator c' o' r) rows
            (λ r. pair_removed c o c' o' r e),
      )
      | inr e ↦ ground (
        arith,
        e,
        law,
        any_where_same (λ r. not (is_operator c o r) && is_operator c' o' r) (is_operator c' o')
            rows (λ r. pair_kept c o c' o' r e),
      )
    ]

upsert_data_operator-approval :
    (row : DataOperatorRow) (c' o' : String) (s : World)
    → has_data_operator_approval c' o' (upsert_data_operator row s) ≡ (
        if (row.collection_id == c') && (row.operator == o')
        then true
        else has_data_operator_approval c' o' s)
unfolding upsert_data_operator has_data_operator_approval any_where
upsert_data_operator-approval row c' o' s =
    ground (arith, delete_data_operator-approval row.collection_id row.operator c' o' s)

-- What an approval or a revocation by the creator leaves.
pub record Approves (op : ParsedOperation) (c o : String) (b : Bool) (s s' : World) : Type 0 where
  pub collection : CollectionRow
  pub found : get_collection_rules c s ≡ some collection
  pub by_creator : collection.creator ≡ op.signer
  pub not_self : (o == op.signer) ≡ false
  pub decided :
      (c' o' : String)
      → has_data_operator_approval c' o' s'
        ≡ (if c == c' && o == o' then b else has_data_operator_approval c' o' s)

-- The decision of a collection's creator on an operator other than the creator takes effect, for
-- an approval and for a revocation, and no other pair of collection and operator changes.
pub approve_operator-Approves :
    (op : ParsedOperation) (c o : String) (b : Bool) (s s' : World) (ids : List String)
    → approve_operator op c o b s ≡ (ok ids, s')
    → Approves op c o b s s'
unfolding approve_operator
approve_operator-Approves op c o b s s' ids h = elim (Option-cases (get_collection_rules c s)) [
  | inl e ↦ absurd (ground (arith, h, e))
  | inr (x, e) ↦
      let row : DataOperatorRow = record {
        collection_id = c;
        operator = o;
        block_num = op.block_num;
        tx_id = op.tx_id;
      } in
      record {
        collection = x;
        found = e;
        by_creator = ground (arith, h, e, eq_iff x.creator op.signer);
        not_self = ground (arith, h, e);
        decided = λ c' o'. ground (
          arith,
          h,
          e,
          upsert_data_operator-approval row c' o' s,
          delete_data_operator-approval c o c' o' s,
        );
      }
]

-- What an archived collection leaves.
pub record Archived (op : ParsedOperation) (id : String) (s s' : World) : Type 0 where
  pub collection : CollectionRow
  pub found : get_collection_rules id s ≡ some collection
  pub by_creator : collection.creator ≡ op.signer
  pub no_assets : any_where (in_collection id) s'.db.assets ≡ false
  pub gone :
      (id' : String)
      → get_collection_rules id' s' ≡ (if id == id' then none else get_collection_rules id' s)
  pub no_operators : (o : String) → has_data_operator_approval id o s' ≡ false
  pub assets_stand : s'.db.assets ≡ s.db.assets
