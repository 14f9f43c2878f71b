-- ===== src/McSim/Hydra/Cache.antt =====
-- Which rows the cache of class Hydra holds.
use row_armor.Base.{
  ℕ, zero, suc, ◌<◌, ◌≤◌, ◌≡◌, refl, ap, sym, ◌∙◌, length, ◌==◌, List, [], ◌∷◌, true, false, arith,
  Bool-cases, inl, inr, map,
}
use row_armor.McSim.Hydra.{
  HydraConfig, Hydra, row_of, is_cached, erase_row, pop_back, cache_row, query_rcc, hydra_start,
}

-- The rows in the order of their last access, the latest first, with no bound.
unfoldable pub recency : List ℕ → List ℕ → List ℕ
recency [] seen = seen
recency (row ∷ rows) seen = recency rows (row ∷ erase_row row seen)

unfoldable pub take : ℕ → List ℕ → List ℕ
take zero rows = []
take (suc n) [] = []
take (suc n) (row ∷ rows) = row ∷ take n rows

-- The state after the cache was asked for the addresses.
unfoldable pub queried : HydraConfig → List ℕ → Hydra → Hydra
queried p [] s = s
queried p (address ∷ rest) s = queried p rest (query_rcc p address s).0

take_none : (n : ℕ) → take n [] ≡ []
unfolding take
take_none zero = refl
take_none (suc n) = refl

length-take : (n : ℕ) (rows : List ℕ) → length (take n rows) ≤ n
unfolding take
length-take zero rows = omega arith
length-take (suc n) [] = omega arith
length-take (suc n) (row ∷ rows) = omega (arith, length-take n rows)

-- A cached row moves out of the rows that the cache holds.
erase_row-take :
    (row n : ℕ) (rows : List ℕ)
    → is_cached row (take (suc n) rows) ≡ true
    → erase_row row (take (suc n) rows) ≡ take n (erase_row row rows)
unfolding take erase_row is_cached
erase_row-take row n [] h = absurd (ground arith)
erase_row-take row zero (x ∷ rows) h = let same : (row == x) ≡ true = ground arith in rw same refl
erase_row-take row (suc n) (x ∷ rows) h = elim (Bool-cases (row == x)) [
  | inl same ↦ rw same refl
  | inr apart ↦ rw (apart, erase_row-take row n rows (ground arith)) refl
]

-- A row that the cache does not hold leaves the others in place.
take-erase_row :
    (row n : ℕ) (rows : List ℕ)
    → is_cached row (take (suc n) rows) ≡ false
    → take n (erase_row row rows) ≡ take n rows
unfolding take erase_row is_cached
take-erase_row row zero rows h = refl
take-erase_row row (suc n) [] h = refl
take-erase_row row (suc n) (x ∷ rows) h =
    let apart : (row == x) ≡ false = ground arith in
    rw (apart, take-erase_row row n rows (ground arith)) refl

pop_back-take :
    (n : ℕ) (rows : List ℕ)
    → length (take (suc n) rows) ≡ suc n
    → pop_back (take (suc n) rows) ≡ take n rows
unfolding take pop_back
pop_back-take n [] h = absurd (omega arith)
pop_back-take zero (x ∷ rows) h = refl
pop_back-take (suc n) (x ∷ []) h = absurd (omega arith)
pop_back-take (suc n) (x ∷ y ∷ rows) h = ap (λ r. x ∷ r) (pop_back-take n (y ∷ rows) (omega arith))

take_short :
    (n : ℕ) (rows : List ℕ) → length (take (suc n) rows) < suc n → take (suc n) rows ≡ take n rows
unfolding take
take_short zero [] h = refl
take_short (suc n) [] h = refl
take_short zero (x ∷ rows) h = absurd (omega arith)
take_short (suc n) (x ∷ rows) h = ap (λ r. x ∷ r) (take_short n rows (omega arith))

cache_row-take :
    (n row : ℕ) (rows : List ℕ)
    → cache_row (suc n) row (take (suc n) rows) ≡ take (suc n) (row ∷ erase_row row rows)
unfolding cache_row take
cache_row-take n row rows = elim (Bool-cases (is_cached row (take (suc n) rows))) [
  | inl hit ↦ rw (cache_row, hit) (ap (λ r. row ∷ r) (erase_row-take row n rows hit))
  | inr miss ↦
      let others = sym (take-erase_row row n rows miss) in
      elim (Bool-cases (length (take (suc n) rows) == suc n)) [
        | inl full ↦
            rw (cache_row, miss, full)
              (ap (λ r. row ∷ r) (pop_back-take n rows (ground arith) ∙ others))
        | inr room ↦
            let short : length (take (suc n) rows) < suc n =
              ground (arith, length-take (suc n) rows) in
            rw (cache_row, miss, room) (ap (λ r. row ∷ r) (take_short n rows short ∙ others))
      ]
]

query_rcc-rcc :
    (p : HydraConfig) (address : ℕ) (s : Hydra)
    → (query_rcc p address s).0.rcc ≡ cache_row p.hydra_rcc_num_entries (row_of p address) s.rcc
unfolding query_rcc
query_rcc-rcc p address s = elim (Bool-cases (is_cached (row_of p address) s.rcc)) [
  | inl hit ↦ rw (query_rcc, hit) refl
  | inr miss ↦ rw (query_rcc, miss) refl
]

cache_row-take_pos :
    (entries row : ℕ) (rows : List ℕ)
    → 0 < entries
    → cache_row entries row (take entries rows) ≡ take entries (row ∷ erase_row row rows)
cache_row-take_pos zero row rows h = absurd (omega arith)
cache_row-take_pos (suc n) row rows h = cache_row-take n row rows

queried-lru :
    (p : HydraConfig) (addresses seen : List ℕ) (s : Hydra)
    → 0 < p.hydra_rcc_num_entries
    → s.rcc ≡ take p.hydra_rcc_num_entries seen
    → (queried p addresses s).rcc
      ≡ take p.hydra_rcc_num_entries (recency (map (row_of p) addresses) seen)
unfolding queried recency
queried-lru p [] seen s h e = e
queried-lru p (address ∷ rest) seen s h e =
    queried-lru p rest (row_of p address ∷ erase_row (row_of p address) seen)
      (query_rcc p address s).0 h
      (rw (query_rcc-rcc p address s, e)
        (cache_row-take_pos p.hydra_rcc_num_entries (row_of p address) seen h))

-- The cache of Hydra, which its comment calls FIFO, implements the policy least recently used: with
-- at least one entry, whatever addresses it is asked for from the constructor on, it holds the rows
-- that were asked for last, each once, in the order of their last access, as many as it has entries.
pub query_rcc-lru :
    (p : HydraConfig) (addresses : List ℕ)
    → 0 < p.hydra_rcc_num_entries
    → (queried p addresses (hydra_start p)).rcc
      ≡ take p.hydra_rcc_num_entries (recency (map (row_of p) addresses) [])
unfolding hydra_start
query_rcc-lru p addresses h =
    queried-lru p addresses [] (hydra_start p) h (sym (take_none p.hydra_rcc_num_entries))
