-- ===== src/McSim/Controller/Dispatch/Graphene.antt =====
-- The memory controller with the tracker Graphene asks for refreshes in time.
use row_armor.Base.{
  ℕ, ◌*◌, ◌^◌, ◌<◌, ◌≤◌, ◌≡◌, ◌≢◌, inl, inr, refl, ◌==◌, if◌then◌else◌, List, [], ◌∷◌, length, map,
  Option, none, some, Bool, true, arith, Bool-cases,
}
use row_armor.McSim.Graphene.{flush, graphene_activate}
use row_armor.McSim.Graphene.Guarantee.{activations, refreshes, graphene_guarantee}
use row_armor.McSim.Controller.Dispatch.{
  rh_graphene, DefenceConfig, Defence, Activation, on_graphene, idle_activate, miss_activate,
}

-- Activations of the bank: whether it is idle, and whether PARA draws a refresh.
pub record BankActivation : Type 0 where
  pub idle : Bool
  pub draws : Bool
  pub activation : Activation

abbrev pub activate_bank : DefenceConfig → BankActivation → Defence → Option Defence
activate_bank p b s =
    if b.idle then idle_activate p b.draws b.activation s else miss_activate p b.activation s

abbrev pub defended : DefenceConfig → List BankActivation → Defence → Option Defence
defended p [] s = some s
defended p (b ∷ bs) s = elim (activate_bank p b s) [ none ↦ none | some s' ↦ defended p bs s' ]

abbrev pub row_of_activation : BankActivation → ℕ
row_of_activation b = b.activation.page_num

activate_bank-graphene :
    (p : DefenceConfig) (b : BankActivation) (s : Defence)
    → p.rh_mode ≡ rh_graphene
    → activate_bank p b s ≡ some (on_graphene p b.activation s)
unfolding idle_activate miss_activate
activate_bank-graphene p b s mode = elim (Bool-cases b.idle) [
  | inl idle ↦ rw (activate_bank, idle, idle_activate, mode) refl
  | inr miss ↦ rw (activate_bank, miss, miss_activate, mode) refl
]

on_graphene-rh_ref :
    (p : DefenceConfig) (a : Activation) (s : Defence)
    → let r = graphene_activate p.graphene_threshold s.graphene a.page_num in
      let s' = on_graphene p a s in
      (s'.graphene ≡ r.0) × (s.rh_ref ≡ true → s'.rh_ref ≡ true) × (r.1 ≢ 0 → s'.rh_ref ≡ true)
unfolding on_graphene
on_graphene-rh_ref p a s =
    let answer = (graphene_activate p.graphene_threshold s.graphene a.page_num).1 in
    elim (Bool-cases (answer == 0)) [
      | inl quiet ↦ rw (on_graphene, quiet) (refl, λ h. h, λ ne. absurd (ne (ground arith)))
      | inr refresh ↦ rw (on_graphene, refresh) (refl, λ h. refl, λ ne. refl)
    ]

defended-rh_ref :
    (p : DefenceConfig) (a : ℕ) (bs : List BankActivation) (s : Defence)
    → p.rh_mode ≡ rh_graphene
    → (s' : Defence) × (defended p bs s ≡ some s')
      × (s.rh_ref ≡ true → s'.rh_ref ≡ true)
      × (0 < refreshes p.graphene_threshold a s.graphene (map row_of_activation bs)
          → s'.rh_ref ≡ true)
unfolding refreshes
defended-rh_ref p a [] s mode = (s, refl, λ h. h, λ h. absurd (omega arith))
defended-rh_ref p a (b ∷ bs) s mode =
    let s1 = on_graphene p b.activation s in
    let (table, stays, raised) = on_graphene-rh_ref p b.activation s in
    let (s2, runs, stays', later) = defended-rh_ref p a bs s1 mode in
    let answer = (graphene_activate p.graphene_threshold s.graphene b.activation.page_num).1 in
    (
      s2,
      rw (defended, activate_bank-graphene p b s mode) runs,
      λ h. stays' (stays h),
      λ h. elim (Bool-cases (answer == 0)) [
        | inl quiet ↦ later (rw table (ground arith))
        | inr refresh ↦ stays' (raised (ground arith))
      ],
    )

-- The memory controller with Graphene: where the bank's table was just flushed, and a row is
-- activated as often as the threshold, on whichever of the two paths, the bank is marked for a
-- refresh of neighbours, and no assertion fails. Fewer rows are activated than the threshold times
-- the number of entries (and fewer than 2 ^ 64), and the row is not the address of an empty entry.
pub defended-graphene :
    (p : DefenceConfig) (a size : ℕ) (bs : List BankActivation) (s : Defence)
    → p.rh_mode ≡ rh_graphene
    → s.graphene ≡ flush size
    → 0 < size
    → 0 < p.graphene_threshold
    → a ≢ 2 ^ 62
    → length (map row_of_activation bs) < p.graphene_threshold * size
    → length (map row_of_activation bs) < 2 ^ 64
    → p.graphene_threshold ≤ activations a (map row_of_activation bs)
    → (s' : Defence) × (defended p bs s ≡ some s') × (s'.rh_ref ≡ true)
defended-graphene p a size bs s mode fresh some_entry pos other few small often =
    let (s', runs, _, raised) = defended-rh_ref p a bs s mode in
    let asked =
      graphene_guarantee a p.graphene_threshold size (map row_of_activation bs) some_entry pos other
        few small often in
    (s', runs, raised (rw fresh asked))
