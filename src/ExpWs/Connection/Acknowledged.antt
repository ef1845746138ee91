-- ===== src/ExpWs/Connection/Acknowledged.antt =====
-- The exporter from its options to the acknowledgements and requests that it passes on.
use mathlib.Core.List.{append_assoc}
use eos_chronicle.Base.{
  ℕ, u32_mod, ◌%◌, suc, ◌≡◌, ◌<◌, refl, ap, subst, ◌∙◌, true, false, not, ◌||◌, is_some, some, [],
  ◌∷◌, ◌++◌, ltb, leb, ◌==◌, if◌then◌else◌, arith, Bool-cases, inl, inr,
}
use eos_chronicle.Base.Exec.{Error, ok, err, pure, throw, modify}
use eos_chronicle.Receiver.State.{World}
use eos_chronicle.Receiver.Acks.{ack_block, acknowledge}
use eos_chronicle.Receiver.Interactive.{on_block_req}
use eos_chronicle.Receiver.Options.{Options, is_noexport_opt}
use eos_chronicle.ExpWs.Request.RoundTrip.{
  decimal, power10, read_ack-decimal, read_interactive_req-range,
}
use eos_chronicle.ExpWs.Options.{ExporterOptions, Plugins, initialize_exporter}
use eos_chronicle.ExpWs.Connection.{
  Session, acknowledgement, interactive_request, start, acks_read, interactive_reqs_read,
}

-- What the options of an exporter that is initialised give.
pub record Initialized (x : ExporterOptions) (p q : Plugins) : Type 0 where
  pub positive_unack : 0 < x.max_unack
  pub positive_queue : 0 < x.max_queue
  pub maxunack : q.exporter.maxunack ≡ x.max_unack
  pub same_queue : q.exporter.async_queue ≡ p.exporter.async_queue
  pub headers : q.use_bin_headers ≡ x.bin_header
  pub subscribed : q.subscribed ≡ true
  pub waits_for :
      q.dependent_plugins ≡ p.dependent_plugins ++ "decoder_plugin" ∷ "exp_ws_plugin" ∷ []
  pub first : p.have_exporter ≡ false
  pub only : q.have_exporter ≡ true

-- Where the exporter is initialised in a mode that exports, its limits are positive and its
-- options taken, the receiver waits for the decoder and then for it, and it is the first exporter.
initialize_exporter-Initialized :
    (o : Options) (x : ExporterOptions) (p q : Plugins)
    → is_noexport_opt o ≡ ok false
    → initialize_exporter o x p ≡ (ok tt, q)
    → Initialized x p q
unfolding initialize_exporter modify throw pure
initialize_exporter-Initialized o x p q exports run =
    elim (Bool-cases (not (is_some x.host) || not (is_some x.port))) [
      | inl missing ↦ cc (simp (exports, missing) at run)
      | inr given ↦ elim (Bool-cases (x.max_unack == 0)) [
        | inl no_unack ↦ cc (simp (exports, given, no_unack) at run)
        | inr unack ↦ elim (Bool-cases (x.max_queue == 0)) [
          | inl no_queue ↦ cc (simp (exports, given, unack, no_queue) at run)
          | inr queue ↦ elim (Bool-cases p.have_exporter) [
            | inl second ↦ cc (simp (exports, given, unack, queue, second) at run)
            | inr free ↦
                let e = ap (λ r. r.1) (simp (exports, given, unack, queue, free) at run) in
                subst (Initialized x p) e (record {
                  positive_unack = ground arith;
                  positive_queue = ground arith;
                  maxunack = refl;
                  same_queue = refl;
                  headers = refl;
                  subscribed = refl;
                  waits_for =
                      append_assoc p.dependent_plugins ("decoder_plugin" ∷ [])
                        ("exp_ws_plugin" ∷ []);
                  first = free;
                  only = refl;
                })
          ]
        ]
      ]
    ]

module _ (w : World) where
  -- From the options on: where the exporter was initialised in a mode that exports, and the
  -- receiver scans, exports and has no exporter that acknowledges yet, a start that connects
  -- promises the receiver acknowledgements, with the option's positive number of blocks that may be
  -- unacknowledged, and reads acknowledgements; and the receiver waits for the decoder and for the
  -- exporter before it starts.
  pub initialize_exporter-start :
      (o : Options) (x : ExporterOptions) (p q : Plugins) (s : Session w)
      → is_noexport_opt o ≡ ok false
      → initialize_exporter o x p ≡ (ok tt, q)
      → s.exporter ≡ q.exporter
      → s.receiver.config.interactive_mode ≡ false
      → s.receiver.config.noexport_mode ≡ false
      → s.receiver.exporter_will_ack ≡ false
      → let (result, t) = start w false s in
        (result ≡ ok tt)
        × (t.receiver.exporter_will_ack ≡ true)
        × (t.receiver.exporter_max_unconfirmed ≡ x.max_unack)
        × (0 < x.max_unack)
        × (t.reading ≡ some acknowledgement)
        × (t.is_open ≡ true)
        × (q.dependent_plugins ≡ p.dependent_plugins ++ "decoder_plugin" ∷ "exp_ws_plugin" ∷ [])
  unfolding start
  initialize_exporter-start o x p q s exports run same scanning exporting free =
      let made = initialize_exporter-Initialized o x p q exports run in
      let unack : s.exporter.maxunack ≡ x.max_unack = ap (λ y. y.maxunack) same ∙ made.maxunack in
      let some_unack : (x.max_unack == 0) ≡ false = ground (arith, made.positive_unack) in
      simp (scanning, free, unack, some_unack, exporting)
        (refl, refl, refl, made.positive_unack, refl, refl, made.waits_for)

  -- An acknowledgement of a number below 2^64 in decimal digits, from a session whose receiver was
  -- promised acknowledgements: the receiver gets the number if it is below 2^32, and the exporter
  -- reads the next; otherwise nothing is acknowledged and the handler throws.
  pub acks_read-decimal :
      (fuel n : ℕ) (s : Session w)
      → n < power10 (suc fuel)
      → n < 18446744073709551616
      → s.receiver.exporter_will_ack ≡ true
      → let (result, t) = acks_read w false (decimal fuel n) s in
        if ltb 4294967295 n
        then (result ≡ err Error.ack_out_of_range) × (t.receiver ≡ s.receiver)
        else (result ≡ ok tt)
          × (t.receiver ≡ acknowledge n s.receiver)
          × (t.reading ≡ some acknowledgement)
  unfolding acks_read ack_block
  acks_read-decimal fuel n s few small promised =
      let read = read_ack-decimal fuel n few small in
      elim (Bool-cases (ltb 4294967295 n)) [
        | inl wide ↦ rw read (rw wide (refl, refl))
        | inr fits ↦ rw read (rw fits (rw promised (refl, refl, refl)))
      ]

  -- A range of two numbers below 2^64 in decimal digits with a dash between them is cut to 32 bits:
  -- what is asked for are the numbers modulo 2^32. If the end is above the start, the receiver's
  -- on_block_req gets this request and the exporter reads the next; otherwise the handler throws and
  -- the receiver gets nothing.
  pub interactive_reqs_read-range :
      (f g m n : ℕ) (s : Session w)
      → m < power10 (suc f)
      → n < power10 (suc g)
      → m < 18446744073709551616
      → n < 18446744073709551616
      → let (result, t) = interactive_reqs_read w false (decimal f m ++ 45 ∷ decimal g n) s in
        if leb (n % u32_mod) (m % u32_mod)
        then (result ≡ err Error.end_not_above_start) × (t.receiver ≡ s.receiver)
        else (result ≡ ok tt)
          × (t.receiver
              ≡ (on_block_req w
                  (record { block_num_start = m % u32_mod; block_num_end = n % u32_mod })
                  s.receiver).1)
          × (t.reading ≡ some interactive_request)
  unfolding interactive_reqs_read
  interactive_reqs_read-range f g m n s few_m few_n small_m small_n =
      let read = read_interactive_req-range f g m n few_m few_n small_m small_n in
      elim (Bool-cases (leb (n % u32_mod) (m % u32_mod))) [
        | inl wrong ↦ rw read (rw wrong (refl, refl))
        | inr above ↦ rw read (rw above (refl, refl, refl))
      ]
