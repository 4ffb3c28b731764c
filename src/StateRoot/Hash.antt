-- ===== src/StateRoot/Hash.antt =====
-- packages/indexer/src/utils/state-root-hash.ts: the exclusive-or of row hashes. `hash_row` is a
-- parameter: SHA-256 over the canonical JSON of the row. A root is a list of bytes.
use nftlox.Prelude.{ℕ, zero, suc, ◌+◌, ◌*◌, ◌/◌, ◌%◌, List, [], ◌∷◌, length, eqb, not}
use nftlox.Rejection.{plain_error}
use nftlox.Result.{Result, ok, bind, throw_if}
use nftlox.StateRoot.Row.{AssetStateRow}

abbrev pub state_root_bytes : ℕ
state_root_bytes = 32

-- `n` zero bytes
unfoldable pub zeros : ℕ → List ℕ
zeros zero = []
zeros (suc n) = 0 ∷ zeros n

unfoldable pub empty_state_root : List ℕ
unfolding zeros
empty_state_root = zeros state_root_bytes

-- `a ^ b` on the lowest `bits` binary digits
unfoldable pub xor_bits : ℕ → ℕ → ℕ → ℕ
xor_bits zero a b = 0
xor_bits (suc bits) a b = (a % 2 + b % 2) % 2 + 2 * xor_bits bits (a / 2) (b / 2)

-- The loop over the bytes of two arrays of one length.
unfoldable pub xor_bytes : List ℕ → List ℕ → List ℕ
unfolding xor_bits
xor_bytes (a ∷ xs) (b ∷ ys) = xor_bits 8 a b ∷ xor_bytes xs ys
xor_bytes _ _ = []

unfoldable pub xor_into : List ℕ → List ℕ → Result (List ℕ)
unfolding xor_bytes
xor_into target operand =
    bind (throw_if (not (eqb (length target) state_root_bytes)) plain_error) λ _.
      bind (throw_if (not (eqb (length operand) state_root_bytes)) plain_error)
        λ _. ok (xor_bytes target operand)

pub data StateRootDelta : Type 0 where
  insert_row : AssetStateRow → StateRootDelta
  update_row : AssetStateRow → AssetStateRow → StateRootDelta
  delete_row : AssetStateRow → StateRootDelta

unfoldable pub apply_delta : (AssetStateRow → List ℕ) → List ℕ → StateRootDelta → Result (List ℕ)
apply_delta hash_row root (insert_row r) = xor_into root (hash_row r)
apply_delta hash_row root (delete_row o) = xor_into root (hash_row o)
apply_delta hash_row root (update_row o r) =
    bind (xor_into root (hash_row o)) λ m. xor_into m (hash_row r)

-- The loop over the rows, from a root.
unfoldable pub scan_rows : (AssetStateRow → List ℕ) → List AssetStateRow → List ℕ → Result (List ℕ)
scan_rows hash_row [] root = ok root
scan_rows hash_row (r ∷ rows) root =
    bind (xor_into root (hash_row r)) λ next. scan_rows hash_row rows next

unfoldable pub compute_state_root_full_scan :
    (AssetStateRow → List ℕ) → List AssetStateRow → Result (List ℕ)
compute_state_root_full_scan hash_row rows = scan_rows hash_row rows empty_state_root
