-- ===== src/Receiver/Abi/Cache.antt =====
-- The decoder's context and the table of the latest ABIs agree while the receiver scans.
use eos_chronicle.Base.{
  ℕ, ◌≡◌, refl, sym, ◌∙◌, true, false, Option, none, some, List, [], if◌then◌else◌, contains,
  insert, Bool-cases, inl, inr, is_some, ◌==◌, ==_iff, ◌||◌, ◌⊎◌,
}
use eos_chronicle.Store.Rows.{Bytes, ContractAbi}
use eos_chronicle.Receiver.State.{World}
use eos_chronicle.Receiver.Laws.{Laws}
use eos_chronicle.Receiver.Abi.{set_in}

-- Membership of an inserted name.
pub contains-insert :
    (a b : ℕ) (names : List ℕ) → contains b (insert a names) ≡ (b == a || contains b names)
contains-insert a b names = elim (Bool-cases (contains a names)) [
  | inl old ↦ elim (Bool-cases (b == a)) [
    | inl e ↦ rw (old, e) (rw ((==_iff b a).0 e) old)
    | inr n ↦ rw (old, n)
  ]
  | inr new ↦ rw new
]

module _ (w : World) (l : Laws w) where
  abbrev pub loaded_in : Option w.decoder.Context → ℕ → Option Bytes
  loaded_in none a = none
  loaded_in (some c) a = l.decoder.loaded c a

  -- There is a context; each loaded contract has its latest ABI in it; and the decoder accepts
  -- every ABI of the table.
  pub record CacheOk (context : Option w.decoder.Context) (names : List ℕ) (t : w.abis.Table)
      : Type 0 where
    pub ready : is_some context ≡ true
    pub current :
        (a : ℕ)
        → contains a names ≡ true
        → (x : ContractAbi) × (w.abis.find a t ≡ some x) × (loaded_in context a ≡ some x.abi)
    pub valid :
        (a : ℕ) (x : ContractAbi) → w.abis.find a t ≡ some x → l.decoder.accepts x.abi ≡ true

  -- Whether the decoder takes an ABI, and what the context then holds.
  pub set_in_lem :
      (c : Option w.decoder.Context) (a : ℕ) (abi : Bytes)
      → is_some c ≡ true
      → ((set_in w c a abi).0 ≡ l.decoder.accepts abi) × (is_some (set_in w c a abi).1 ≡ true)
  set_in_lem none a abi h = cc
  set_in_lem (some c) a abi h = (l.decoder.set_abi_bin_lem c a abi, refl)

  pub set_in_accepted :
      (c : Option w.decoder.Context) (a b : ℕ) (abi : Bytes)
      → is_some c ≡ true
      → l.decoder.accepts abi ≡ true
      → loaded_in (set_in w c a abi).1 b ≡ (if b == a then some abi else loaded_in c b)
  set_in_accepted none a b abi h v = cc
  set_in_accepted (some c) a b abi h v = l.decoder.loaded_accepted c a b abi v

  set_in_refused :
      (c : Option w.decoder.Context) (a b : ℕ) (abi : Bytes)
      → is_some c ≡ true
      → l.decoder.accepts abi ≡ false
      → (b == a) ≡ false
      → loaded_in (set_in w c a abi).1 b ≡ loaded_in c b
  set_in_refused none a b abi h v n = cc
  set_in_refused (some c) a b abi h v n = l.decoder.loaded_refused c a b abi v n

  module _ {c : Option w.decoder.Context} {names : List ℕ} {t : w.abis.Table}
      (ok : CacheOk c names t) where
    pub CacheOk-fresh : CacheOk (some w.decoder.create) [] t
    CacheOk-fresh = record { ready = refl; current = λ a h. cc; valid = ok.valid }

    pub CacheOk-refused :
        (a : ℕ) (abi : Bytes)
        → contains a names ≡ false
        → l.decoder.accepts abi ≡ false
        → CacheOk (set_in w c a abi).1 names t
    CacheOk-refused a abi out v = record {
      ready = (set_in_lem c a abi ok.ready).1;
      current = λ b h.
          let (x, found, held) = ok.current b h in
          let other : (b == a) ≡ false = apart b h (Bool-cases (b == a)) in
          (x, found, set_in_refused c a b abi ok.ready v other ∙ held);
      valid = ok.valid;
    }
      where
        apart :
            (b : ℕ)
            → contains b names ≡ true
            → ((b == a) ≡ true) ⊎ ((b == a) ≡ false)
            → (b == a) ≡ false
        apart b h (inr n) = n
        apart b h (inl e) = cc (rw ((==_iff b a).0 e) at h)

    -- The contract's row is now `x`, which the decoder accepts and loads.
    pub CacheOk-loaded :
        (a : ℕ) (x : ContractAbi) (t' : w.abis.Table)
        → l.decoder.accepts x.abi ≡ true
        → ((k : ℕ) → w.abis.find k t' ≡ (if k == a then some x else w.abis.find k t))
        → CacheOk (set_in w c a x.abi).1 (insert a names) t'
    CacheOk-loaded a x t' v finds = record {
      ready = (set_in_lem c a x.abi ok.ready).1;
      current = λ b h. now b (rw (contains-insert a b names) at h) (Bool-cases (b == a));
      valid = λ b y h. accepted b y (sym (finds b) ∙ h) (Bool-cases (b == a));
    }
      where
        now :
            (b : ℕ)
            → (b == a || contains b names) ≡ true
            → ((b == a) ≡ true) ⊎ ((b == a) ≡ false)
            → (y : ContractAbi) × (w.abis.find b t' ≡ some y)
              × (loaded_in (set_in w c a x.abi).1 b ≡ some y.abi)
        now b h (inl e) = (x, rw (finds b, e), rw (set_in_accepted c a b x.abi ok.ready v, e))
        now b h (inr n) =
            let (y, found, held) = ok.current b (rw n at h) in
            (y, rw (finds b, n) found, rw (set_in_accepted c a b x.abi ok.ready v, n) held)

        accepted :
            (b : ℕ) (y : ContractAbi)
            → (if b == a then some x else w.abis.find b t) ≡ some y
            → ((b == a) ≡ true) ⊎ ((b == a) ≡ false)
            → l.decoder.accepts y.abi ≡ true
        accepted b y h (inl e) = let same : some x ≡ some y = (rw e at h) in cc (same)
        accepted b y h (inr n) = ok.valid b y (rw n at h)

    pub CacheOk-removed :
        (a : ℕ) (t' : w.abis.Table)
        → contains a names ≡ false
        → ((k : ℕ) → w.abis.find k t' ≡ (if k == a then none else w.abis.find k t))
        → CacheOk c names t'
    CacheOk-removed a t' out finds = record {
      ready = ok.ready;
      current = λ b h. now b h (Bool-cases (b == a));
      valid = λ b y h. ok.valid b y (accepted b y (sym (finds b) ∙ h) (Bool-cases (b == a)));
    }
      where
        now :
            (b : ℕ)
            → contains b names ≡ true
            → ((b == a) ≡ true) ⊎ ((b == a) ≡ false)
            → (y : ContractAbi) × (w.abis.find b t' ≡ some y) × (loaded_in c b ≡ some y.abi)
        now b h (inl e) = cc (rw ((==_iff b a).0 e) at h)
        now b h (inr n) = let (y, found, held) = ok.current b h in (y, rw (finds b, n) found, held)

        accepted :
            (b : ℕ) (y : ContractAbi)
            → (if b == a then none else w.abis.find b t) ≡ some y
            → ((b == a) ≡ true) ⊎ ((b == a) ≡ false)
            → w.abis.find b t ≡ some y
        accepted b y h (inl e) = cc (rw e at h)
        accepted b y h (inr n) = rw n at h
