-- ===== src/Durable/Chunks.antt =====
-- `split` and `combine` of `DurableAssetFormat`
-- (entry/src/main/ets/model/persistence/DurableAssetFormat.ets).
use harmotty.Prelude.{
  ℕ, zero, suc, ◌+◌, ◌/◌, ◌≤◌, ◌≡◌, refl, ap, ◌∙◌, List, [], ◌∷◌, ◌++◌, arith, take, drop,
  take-append-drop, length-take, length-drop, length, All, max,
}
use harmotty.Durable.Utf8.{Bytes}

abbrev pub durable_asset_chunk_bytes : ℕ
durable_asset_chunk_bytes = 768

unfoldable pub split_loop : ℕ → Bytes → List Bytes
split_loop fuel [] = []
split_loop zero (b ∷ value) = []
split_loop (suc fuel) (b ∷ value) =
    take durable_asset_chunk_bytes (b ∷ value)
    ∷ split_loop fuel (drop durable_asset_chunk_bytes (b ∷ value))

-- The fuel is the length of the value; a chunk has at least one byte.
unfoldable pub split : Bytes → List Bytes
split [] = [] ∷ []
split (b ∷ value) = split_loop (length (b ∷ value)) (b ∷ value)

unfoldable pub combine : List Bytes → Bytes
combine [] = []
combine (chunk ∷ chunks) = chunk ++ combine chunks

combine-split_loop :
    (fuel : ℕ) (value : Bytes) → length value ≤ fuel → combine (split_loop fuel value) ≡ value
unfolding combine split_loop
combine-split_loop fuel [] h = refl
combine-split_loop zero (b ∷ value) h = absurd (omega arith)
combine-split_loop (suc fuel) (b ∷ value) h =
    ap (λ rest. take durable_asset_chunk_bytes (b ∷ value) ++ rest)
      (combine-split_loop fuel (drop durable_asset_chunk_bytes (b ∷ value))
        (omega (arith, length-drop {0} durable_asset_chunk_bytes (b ∷ value))))
    ∙ take-append-drop durable_asset_chunk_bytes (b ∷ value)

-- The chunks of a value, put together, are the value.
pub combine-split : (value : Bytes) → combine (split value) ≡ value
unfolding combine split
combine-split [] = refl
combine-split (b ∷ value) = combine-split_loop (length (b ∷ value)) (b ∷ value) (omega arith)

split_loop_sizes :
    (fuel : ℕ) (value : Bytes)
    → All (λ chunk. length chunk ≤ durable_asset_chunk_bytes) (split_loop fuel value)
unfolding split_loop
split_loop_sizes fuel [] = tt
split_loop_sizes zero (b ∷ value) = tt
split_loop_sizes (suc fuel) (b ∷ value) = (
  omega (arith, length-take {0} durable_asset_chunk_bytes (b ∷ value)),
  split_loop_sizes fuel (drop durable_asset_chunk_bytes (b ∷ value)),
)

-- No chunk is longer than 768 bytes.
pub split_sizes :
    (value : Bytes) → All (λ chunk. length chunk ≤ durable_asset_chunk_bytes) (split value)
unfolding split
split_sizes [] = (omega arith, tt)
split_sizes (b ∷ value) = split_loop_sizes (length (b ∷ value)) (b ∷ value)

length-split_loop :
    (fuel : ℕ) (value : Bytes)
    → length value ≤ fuel
    → length (split_loop fuel value) ≡ (length value + 767) / 768
unfolding split_loop
length-split_loop fuel [] h = refl
length-split_loop zero (b ∷ value) h = absurd (omega arith)
length-split_loop (suc fuel) (b ∷ value) h = omega (
  arith,
  length-split_loop fuel (drop durable_asset_chunk_bytes (b ∷ value))
      (omega (arith, length-drop {0} durable_asset_chunk_bytes (b ∷ value))),
  length-drop {0} durable_asset_chunk_bytes (b ∷ value),
)

-- There is a chunk for every 768 bytes begun, and one for an empty value.
pub length-split : (value : Bytes) → length (split value) ≡ max 1 ((length value + 767) / 768)
unfolding split
length-split [] = refl
length-split (b ∷ value) =
    omega (arith, length-split_loop (length (b ∷ value)) (b ∷ value) (omega arith))
