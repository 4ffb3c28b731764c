-- ===== src/Packs/Rng.antt =====
-- packages/packs-engine/src/rng.ts. SHA-256 is a parameter: `digest` gives the bytes of the hash of a
-- text. A roll is the double `k * 2^-53`; it is given by `k`, and the product of a roll and a weight
-- by its multiple of 2^-53.
use nftlox.Prelude.{
  ℕ, zero, suc, ◌+◌, ◌*◌, ◌/◌, ◌^◌, String, Option, none, some, List, [], ◌∷◌, ltb, eqb,
  if◌then◌else◌,
}
use nftlox.Rejection.{plain_error}
use nftlox.Result.{Result, ok, err}
use nftlox.Json.{pos}
use nftlox.Protocol.ListingId.{join_colon, number_text}
use nftlox.Packs.Double.{round_to_double}
use nftlox.Packs.Definition.{PackDropEntry, total_weight}

-- `hash[i]`, for the 32 bytes that a digest has
unfoldable pub byte_at : List ℕ → ℕ → ℕ
byte_at [] i = 0
byte_at (b ∷ bs) zero = b
byte_at (b ∷ bs) (suc i) = byte_at bs i

-- `hash.readUInt32BE(i)`
unfoldable pub read_uint32_be : List ℕ → ℕ → ℕ
unfolding byte_at
read_uint32_be bs i =
    byte_at bs i * 2 ^ 24
    + byte_at bs (suc i) * 2 ^ 16
    + byte_at bs (suc (suc i)) * 2 ^ 8
    + byte_at bs (suc (suc (suc i)))

unfoldable pub deterministic_rng : (String → List ℕ) → String → ℕ → ℕ
unfolding read_uint32_be join_colon number_text
deterministic_rng digest seed index =
    let hash = digest (join_colon ("nftlox" ∷ "rng" ∷ seed ∷ number_text (pos index) ∷ [])) in
    let hi = read_uint32_be hash 0 / 2 ^ 11 in let lo = read_uint32_be hash 4 in hi * 2 ^ 32 + lo

-- `deterministicRng(rngSeed, i) * totalWeight`. The double product of `k * 2^-53` and a weight below
-- 2^32 has at most 85 bits, so 33 units are tried.
unfoldable pub weighted_roll : ℕ → ℕ → ℕ
unfolding round_to_double
weighted_roll k weight = round_to_double 33 1 (k * weight)

-- The loop over the entries, with the weight of those before.
unfoldable pub select_entry : ℕ → ℕ → List PackDropEntry → Option String
select_entry roll cumulative [] = none
select_entry roll cumulative (e ∷ es) =
    if ltb roll ((cumulative + e.weight) * 2 ^ 53)
    then some e.seed_id
    else select_entry roll (cumulative + e.weight) es

-- `dropTable[dropTable.length - 1].seedId`
unfoldable pub last_seed_id : PackDropEntry → List PackDropEntry → String
last_seed_id e [] = e.seed_id
last_seed_id e (f ∷ es) = last_seed_id f es

unfoldable pub drop_item :
    (String → List ℕ) → PackDropEntry → List PackDropEntry → String → ℕ → String
drop_item digest e es rng_seed i =
    let roll = weighted_roll (deterministic_rng digest rng_seed i) (total_weight (e ∷ es)) in
    elim (select_entry roll 0 (e ∷ es)) [ none ↦ last_seed_id e es | some seed_id ↦ seed_id ]

-- The loop over `i`, with the rounds that are left.
unfoldable pub drop_items :
    (String → List ℕ) → PackDropEntry → List PackDropEntry → String → ℕ → ℕ → List String
drop_items digest e es rng_seed zero i = []
drop_items digest e es rng_seed (suc left) i =
    drop_item digest e es rng_seed i ∷ drop_items digest e es rng_seed left (suc i)

unfoldable pub resolve_drop_table :
    (String → List ℕ) → List PackDropEntry → ℕ → String → Result (List String)
resolve_drop_table digest [] item_count rng_seed = err plain_error
resolve_drop_table digest (e ∷ es) item_count rng_seed =
    if eqb (total_weight (e ∷ es)) 0
    then err plain_error
    else ok (drop_items digest e es rng_seed item_count 0)

pub record PackOpenContext : Type 0 where
  pub tx_id : String
  pub operation_id : String
  pub block_num : ℕ
  pub owner : String

unfoldable pub build_pack_open_seed : PackOpenContext → String → ℕ → String
unfolding join_colon number_text
build_pack_open_seed c pack_definition_id pack_index = join_colon (
    c.tx_id
    ∷ c.operation_id
    ∷ number_text (pos c.block_num)
    ∷ c.owner
    ∷ pack_definition_id
    ∷ number_text (pos pack_index)
    ∷ [])
