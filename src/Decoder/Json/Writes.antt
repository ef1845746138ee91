-- ===== src/Decoder/Json/Writes.antt =====
-- Sequences of calls of the JSON writer that return, with what they write.
use mathlib.Core.List.{append-nil, append_assoc}
use eos_chronicle.Base.{
  ℕ, ◌+◌, ◌≡◌, refl, sym, ap, ◌∙◌, subst, inl, inr, Option, none, some, List, [], ◌∷◌, ◌++◌,
  length-append, arith,
}
use eos_chronicle.Base.Exec.{Exec, ok, pure, modify, ◌>>=◌, ◌>>◌}
use eos_chronicle.Store.Rows.{Bytes}
use eos_chronicle.Receiver.State.{World, ReceiverOf}
use eos_chronicle.Receiver.Abi.{get_contract_abi_ready}
use eos_chronicle.Decoder.Writer.{Token}
use eos_chronicle.Decoder.Json.{
  Printers, Coded, Native, coded_bytes, coded_account, type_of, JsonState, add_error, failure, put,
  put_string, encode, decoded,
}
use eos_chronicle.Decoder.Json.Trees.{
  Json, string, embedded, tokens, Plainly, ShowsCoded, Shows, Grew,
}

-- `P` is a property of the receiver that loading an ABI keeps.
module _ (w : World) (print : Printers w.decoder.Context) (P : ReceiverOf w → Type 0)
    (Q : ℕ → Option w.decoder.Context → Type 0)
    (keep : (a : ℕ) (r : ReceiverOf w)
      → let t = (get_contract_abi_ready w a r).1 in P r → P t × Q a t.contract_abi_ctxt) where
  -- `m` returns, and it writes calls `out` with `n` new errors that are as `Good` says.
  abbrev pub Writes : Exec (JsonState w) (Unit {0}) → (List Token → ℕ → Type 0) → Type 0
  Writes m Good =
      (s : JsonState w)
      → P s.receiver
      → (out : List Token) × (n : ℕ) × (t : JsonState w) × (m s ≡ (ok tt, t))
        × Good out n
        × (t.writer ≡ s.writer ++ out)
        × Grew s.encoder_errors t.encoder_errors n
        × P t.receiver

  Grew-none : (e : Option (List Bytes)) → Grew e e 0
  Grew-none none = refl
  Grew-none (some es) = ([], ap some (sym (append-nil es)), refl)

  Grew-both : (e f g : Option (List Bytes)) (a b : ℕ) → Grew e f a → Grew f g b → Grew e g (a + b)
  Grew-both none f g a b h k = subst (λ x. Grew x g b) h k
  Grew-both (some es) f g a b (more, h, len) k =
      let (rest, j, len') = subst (λ x. Grew x g b) h k in
      (
        more ++ rest,
        j ∙ ap some (append_assoc es more rest),
        omega (arith, length-append {0} more rest, len, len'),
      )

  pub put-Writes : (t : Token) → Writes (put w print t) (λ out n. (out ≡ t ∷ []) × (n ≡ 0))
  unfolding put modify
  put-Writes t s p = (
    t ∷ [],
    0,
    record s { writer = s.writer ++ t ∷ [] },
    refl,
    (refl, refl),
    refl,
    Grew-none s.encoder_errors,
    p,
  )

  pub pure-Writes : Writes (pure tt) (λ out n. (out ≡ []) × (n ≡ 0))
  unfolding pure
  pure-Writes s p =
      ([], 0, s, refl, (refl, refl), sym (append-nil s.writer), Grew-none s.encoder_errors, p)

  pub then-Writes :
      (m k : Exec (JsonState w) (Unit {0})) (A B : List Token → ℕ → Type 0)
      → Writes m A
      → Writes k B
      → Writes (m >> k) (λ out n.
        (x : List Token) × (y : List Token) × (a : ℕ) × (b : ℕ) × (out ≡ x ++ y)
        × (n ≡ a + b)
        × A x a
        × B y b)
  unfolding ◌>>=◌
  then-Writes m k A B f g s p =
      let (x, a, t, run, good, wrote, grew, q) = f s p in
      let (y, b, u, run', good', wrote', grew', q') = g t q in
      (
        x ++ y,
        a + b,
        u,
        rw run run',
        (x, y, a, b, refl, refl, good, good'),
        wrote' ∙ ap (λ z. z ++ y) wrote ∙ append_assoc s.writer x y,
        Grew-both s.encoder_errors t.encoder_errors u.encoder_errors a b grew grew',
        q',
      )

  pub good-Writes :
      (m : Exec (JsonState w) (Unit {0})) (A B : List Token → ℕ → Type 0)
      → Writes m A
      → ((out : List Token) (n : ℕ) → A out n → B out n)
      → Writes m B
  good-Writes m A B f h s p =
      let (x, a, t, run, good, wrote, grew, q) = f s p in (x, a, t, run, h x a good, wrote, grew, q)

  pub wrapped-Writes :
      (x y : Token) (m : Exec (JsonState w) (Unit {0})) (A B : List Token → ℕ → Type 0)
      → Writes m A
      → ((out : List Token) (n : ℕ) → A out n → B (x ∷ (out ++ y ∷ [])) n)
      → Writes (put w print x >> m >> put w print y) B
  wrapped-Writes x y m A B f h =
      good-Writes (put w print x >> m >> put w print y) _ B
        (then-Writes (put w print x >> m) (put w print y) _ _
          (then-Writes (put w print x) m _ A (put-Writes x) f) (put-Writes y))
        λ out n (o, c, a, b, whole, count, (d, u, e, g, front, count', (left, none_a), good), last).
          subst (λ z. B z n)
            (sym (
              whole
              ∙ ap (λ z. z ++ c) (front ∙ ap (λ z. z ++ u) left)
              ∙ ap (λ z. (x ∷ u) ++ z) last.0))
            (subst (B (x ∷ (u ++ y ∷ []))) (omega (arith, count, count', none_a, last.1))
              (h u g good))

  abbrev pub Form : Native → List Token → ℕ → Type 0
  Form v out n = (j : Json) × (out ≡ tokens j) × Shows w print Q v j n

  pub string-Writes :
      (b : Bytes)
      → Writes
          (put_string w print b)
          (λ out n. (j : Json) × (out ≡ tokens j) × Plainly w print Q b j n)
  unfolding tokens
  string-Writes b =
      good-Writes (put_string w print b) _ _ (put-Writes (Token.string b))
        λ out n (one, zero_errors). (string b, one, (refl, zero_errors))

  decoded-Writes :
      (o : Option Bytes) (ctxt : Option w.decoder.Context) (c : Coded)
      → print.bin_to_json ctxt (coded_account c) (type_of w print ctxt c) (coded_bytes c) ≡ o
      → Q (coded_account c) ctxt
      → Writes
          (decoded w print o ctxt c)
          (λ out n. (j : Json) × (out ≡ tokens j) × ShowsCoded w print Q c j n)
  unfolding put modify ◌>>=◌ tokens
  decoded-Writes (some js) ctxt c e known s p = (
    Token.raw_value js ∷ [],
    0,
    (decoded w print (some js) ctxt c s).1,
    refl,
    (embedded js, refl, (ctxt, known, inl (js, e, refl, refl))),
    refl,
    Grew-none s.encoder_errors,
    p,
  )
  decoded-Writes none ctxt c e known s p = (
    Token.string (print.to_hex (coded_bytes c)) ∷ [],
    1,
    (decoded w print none ctxt c s).1,
    refl,
    (string (print.to_hex (coded_bytes c)), refl, (ctxt, known, inr (e, refl, refl))),
    refl,
    one_more s.encoder_errors,
    p,
  )
    where
      one_more :
          (es : Option (List Bytes)) → Grew es (add_error w print (failure w print ctxt c) es) 1
      one_more none = refl
      one_more (some es) = (failure w print ctxt c ∷ [], refl, refl)

  pub coded-Writes :
      (c : Coded)
      → Writes
          (encode w print c)
          (λ out n. (j : Json) × (out ≡ tokens j) × ShowsCoded w print Q c j n)
  unfolding encode
  coded-Writes c s p =
      let r = (get_contract_abi_ready w (coded_account c) s.receiver).1 in
      let ctxt = r.contract_abi_ctxt in
      let both = keep (coded_account c) s.receiver p in
      decoded-Writes
        (print.bin_to_json ctxt (coded_account c) (type_of w print ctxt c) (coded_bytes c)) ctxt c
        refl both.1 (record s { receiver = r }) both.0
