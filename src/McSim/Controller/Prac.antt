-- ===== src/McSim/Controller/Prac.antt =====
-- The activation counters of the memory controller: PRAC, one for each row, and RAA, one for each
-- bank.
use row_armor.Base.{
  ℕ, ◌+◌, ◌%◌, ◌^◌, ◌<◌, ◌≤◌, ◌≡◌, refl, leb, ◌==◌, if◌then◌else◌, List, [], ◌∷◌, Bool, true, arith,
  Bool-cases, inl, inr,
}
use row_armor.Base.Word.{inc64}
use row_armor.Base.Tables.{insert_at}

-- The counters of one bank, and whether a refresh management command is due.
pub record RfmBank : Type 0 where
  pub raa_counter : ℕ
  pub prac : ℕ → ℕ
  pub todo_rfm_flag : Bool

unfoldable pub update_raa_counter : ℕ → RfmBank → RfmBank
unfolding inc64
update_raa_counter raaimt s =
    let count = inc64 s.raa_counter in
    record s {
      raa_counter = count;
      todo_rfm_flag = if leb raaimt count then true else s.todo_rfm_flag;
    }

-- What an activation does under PRAC.
unfoldable pub prac_activate : ℕ → ℕ → ℕ → RfmBank → RfmBank
unfolding inc64
prac_activate raaimt num_pages_per_bank page_num s =
    let pnum = page_num % num_pages_per_bank in
    let count = inc64 (s.prac pnum) in
    if leb raaimt count
    then record s { prac = insert_at pnum 0 s.prac; todo_rfm_flag = true }
    else record s { prac = insert_at pnum count s.prac }

-- A sequence of activations in the bank.
unfoldable pub prac_run : ℕ → ℕ → List ℕ → RfmBank → RfmBank
prac_run raaimt num_pages [] s = s
prac_run raaimt num_pages (page ∷ pages) s =
    prac_run raaimt num_pages pages (prac_activate raaimt num_pages page s)

abbrev pub count_pages : ℕ → ℕ → List ℕ → ℕ
count_pages num_pages a [] = 0
count_pages num_pages a (page ∷ pages) =
    (if (page % num_pages) == a then 1 else 0) + count_pages num_pages a pages

flag_stays :
    (raaimt num_pages : ℕ) (pages : List ℕ) (s : RfmBank)
    → s.todo_rfm_flag ≡ true
    → (prac_run raaimt num_pages pages s).todo_rfm_flag ≡ true
unfolding prac_run prac_activate
flag_stays raaimt num_pages [] s h = h
flag_stays raaimt num_pages (page ∷ pages) s h =
    elim (Bool-cases (leb raaimt (inc64 (s.prac (page % num_pages))))) [
      | inl full ↦ rw (prac_run, prac_activate, full) (flag_stays raaimt num_pages pages _ refl)
      | inr more ↦ rw (prac_run, prac_activate, more) (flag_stays raaimt num_pages pages _ h)
    ]

-- Whatever pages of a bank are activated, a page whose activations and earlier count together reach
-- the threshold, which is below 2 ^ 64, has the flag for refresh management raised.
pub prac_run-flag :
    (raaimt num_pages a : ℕ) (pages : List ℕ) (s : RfmBank)
    → raaimt < 2 ^ 64
    → s.prac a < raaimt
    → raaimt ≤ s.prac a + count_pages num_pages a pages
    → (prac_run raaimt num_pages pages s).todo_rfm_flag ≡ true
unfolding prac_run prac_activate inc64
prac_run-flag raaimt num_pages a [] s small low often = absurd (omega arith)
prac_run-flag raaimt num_pages a (page ∷ pages) s small low often =
    elim (Bool-cases (leb raaimt (inc64 (s.prac (page % num_pages))))) [
      | inl full ↦ rw (prac_run, prac_activate, full) (flag_stays raaimt num_pages pages _ refl)
      | inr more ↦
          rw (prac_run, prac_activate, more)
            (prac_run-flag raaimt num_pages a pages
              (record s {
                prac = insert_at (page % num_pages) (inc64 (s.prac (page % num_pages))) s.prac;
              })
              small (ground arith) (ground arith))
    ]
