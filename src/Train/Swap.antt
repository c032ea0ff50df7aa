-- ===== src/Train/Swap.antt =====
-- Theorems on the swap of weights in rtb-bid-model/src/train.py.
use ads_bidding_optimizer.Prelude.{
  ◌≡◌, refl, ap₂, Bool, true, false, some, List, [], ◌∷◌, All, arith,
}
use ads_bidding_optimizer.Dict.{Text, text_key, text_beq_iff, lookup}
use ads_bidding_optimizer.Train.{Param, Params, Shadow, snapshot, overwrite, copy_to, restored}

module _ {ℓ} {W : Type ℓ} where
  lookup-snapshot :
      (m : Params W) (n : Text) (p : Param W)
      → lookup n m ≡ some p
      → p.requires_grad ≡ true
      → lookup n (snapshot m) ≡ some p.values
  unfolding lookup snapshot
  lookup-snapshot [] n p e g = absurd (cc)
  lookup-snapshot ((j, q) ∷ m) n p e g = ground (arith, text_beq_iff j n, lookup-snapshot m n p)

  -- Each name of the model names one parameter, as the names of a torch module do.
  abbrev pub IsNamed : Params W → Type ℓ
  IsNamed m = All (λ np. lookup np.0 m ≡ some np.1) m

  -- parameters whose own values are among the weights of the backup
  abbrev Kept : Shadow W → Params W → Type ℓ
  Kept backup m = All (λ np. np.1.requires_grad ≡ true → lookup np.0 backup ≡ some np.1.values) m

  snapshot-Kept :
      (m : Params W) (l : Params W) → All (λ np. lookup np.0 m ≡ some np.1) l → Kept (snapshot m) l
  snapshot-Kept m [] h = tt
  snapshot-Kept m ((n, p) ∷ l) h = (λ g. lookup-snapshot m n p h.0 g, snapshot-Kept m l h.1)

  restore_at :
      (backup shadow : Shadow W) (n : Text) (values : List W) (trained : Bool)
      → (trained ≡ true → lookup n backup ≡ some values)
      → let p : Param W = record { values = values; requires_grad = trained } in
        overwrite backup (overwrite shadow (n, p)) ≡ (n, p)
  restore_at backup shadow n values true h = rw (h refl)
  restore_at backup shadow n values false h = refl

  restored-Kept :
      (backup shadow : Shadow W) (l : Params W) → Kept backup l → restored backup shadow l ≡ l
  unfolding restored copy_to
  restored-Kept backup shadow [] h = refl
  restored-Kept backup shadow ((n, p) ∷ l) h =
      ap₂ (λ q r. q ∷ r) (restore_at backup shadow n p.values p.requires_grad h.0)
        (restored-Kept backup shadow l h.1)

  -- Copying other weights into the model and then those of a backup taken before leaves every
  -- parameter as it was, trained or not.
  pub restored-snapshot :
      (m : Params W) (shadow : Shadow W) → IsNamed m → restored (snapshot m) shadow m ≡ m
  restored-snapshot m shadow h = restored-Kept (snapshot m) shadow m (snapshot-Kept m m h)
