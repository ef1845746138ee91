-- ===== src/Base/Exec.antt =====
-- Methods of an object that may throw: what was written before a throw stays written, so the
-- state comes back beside the exception too.
use mathlib.Core.Path.{◌≡◌, refl}

-- The exceptions that the sources throw, one constructor for each `throw` (the texts are left out),
-- and `malformed` for what the deserialiser throws on bad input.
pub data Error : Type 0 where
  malformed unknown_type not_a_variant wrong_alternative unknown_table : Error
  irreversible_went_back block_below_irreversible no_undo_stack prev_block_mismatch : Error
  invalid_action_trace store_refused abi_refused undefined_read out_of_fuel : Error
  start_block_not_initial already_at_end interactive_ack noexport_ack : Error
  wrong_magic unsupported_version state_missing state_present wrong_end_magic : Error
  option_missing option_conflict bad_option second_exporter : Error
  abi_missing ack_out_of_range bad_number end_not_above_start assertion_failed : Error
  bad_variant bad_name no_data_dir : Error

pub data Result {ℓ} (A : Type ℓ) : Type ℓ where
  ok : A → Result A
  err : Error → Result A

abbrev pub Exec {ℓ} : Type ℓ → Type ℓ → Type ℓ
Exec S A = S → Result A × S

module _ {ℓ} {S A : Type ℓ} where
  unfoldable pub pure : A → Exec S A
  pure a s = (ok a, s)

  unfoldable pub throw : Error → Exec S A
  throw e s = (err e, s)

  unfoldable pub lift : Result A → Exec S A
  lift r s = (r, s)

  unfoldable pub gets : (S → A) → Exec S A
  gets f s = (ok (f s), s)

module _ {ℓ} {S : Type ℓ} where
  unfoldable pub modify : (S → S) → Exec S (Unit {ℓ})
  modify f s = (ok tt, f s)

module _ {ℓ} {S A B : Type ℓ} where
  abbrev pub continue : Result A → (A → Exec S B) → Exec S B
  continue (ok a) f s = f a s
  continue (err e) f s = (err e, s)

  infixl 10 ◌>>=◌ ◌>>◌
  -- Opening this opens the actions above too.
  unfoldable pub ◌>>=◌ : Exec S A → (A → Exec S B) → Exec S B
  unfolding pure throw lift gets modify
  ◌>>=◌ m f s = let (r, s') = m s in continue r f s'

  abbrev pub ◌>>◌ : Exec S A → Exec S B → Exec S B
  m >> n = m >>= λ _. n

module _ {S A B : Type 0} where
  ran :
      (x : Result A × S) (f : A → Exec S B) (b : B) (t : S)
      → continue x.0 f x.1 ≡ (ok b, t)
      → (a : A) × (s : S) × (x ≡ (ok a, s)) × (f a s ≡ (ok b, t))
  ran (ok a, s) f b t h = (a, s, refl, h)
  ran (err e, s) f b t h = cc

  -- Where a sequence returns, its first part returned and then the rest did.
  pub bind_ok :
      (m : Exec S A) (f : A → Exec S B) (r t : S) (b : B)
      → (m >>= f) r ≡ (ok b, t)
      → (a : A) × (s : S) × (m r ≡ (ok a, s)) × (f a s ≡ (ok b, t))
  unfolding ◌>>=◌
  bind_ok m f r t b h = ran (m r) f b t h
