-- ===== src/Server/Blocks/Keys.antt =====
-- Two keys of blocks are equal only for the same chain and the same identifier.
use btc_eth_indexer.Prelude.{[], ◌∷◌, ◌++◌, Text, Lacks, ◌≡◌, arith}
use btc_eth_indexer.Server.Blocks.{block_key}

first_colon :
    (c d s t : Text)
    → Lacks b':' c
    → Lacks b':' d
    → c ++ (b':' ∷ s) ≡ d ++ (b':' ∷ t)
    → (c ≡ d) × (s ≡ t)
first_colon [] [] s t h k e = ground arith
first_colon [] (x ∷ d) s t h k e = ground arith
first_colon (x ∷ c) [] s t h k e = ground arith
first_colon (x ∷ c) (y ∷ d) s t (_, h) (_, k) e = ground (arith, first_colon c d s t h k)

pub block_key_inj :
    (c d s t : Text)
    → Lacks b':' c
    → Lacks b':' d
    → block_key c s ≡ block_key d t
    → (c ≡ d) × (s ≡ t)
block_key_inj c d s t h k e = first_colon c d s t h k (ground arith)
