-- ===== src/Serial/Write.antt =====
-- Kernel/Arch/x86_64/IO/Serial/Serial16550.hpp: what Write sends.
use objective_hail_os.Prelude.{
  ℕ, zero, suc, ◌+◌, ◌-◌, ◌<◌, ◌≡◌, ◌≢◌, refl, sym, ◌∙◌, ap, true, false, not, some, List, [], ◌∷◌,
  ◌++◌, ◌==◌, if◌then◌else◌, arith, Bool-cases, inl, inr,
}
use mathlib.Core.List.{append_assoc, append-nil}
use mathlib.Core.Bool.{true≢false}
use objective_hail_os.Serial.{Serial, out8, can_tx, wait_tx, write_byte, write_loop, write, flush}

-- A carriage return in front of every line feed.
abbrev pub with_returns : List ℕ → List ℕ
with_returns [] = []
with_returns (ch ∷ rest) = if ch == 10 then 13 ∷ ch ∷ with_returns rest else ch ∷ with_returns rest

-- The writes of the bytes to the base port.
abbrev pub writes_at : (base : ℕ) → List ℕ → List (ℕ × ℕ)
writes_at base [] = []
writes_at base (v ∷ vs) = (base + 0, v) ∷ writes_at base vs

-- From every read on, one of the next `fuel` reads of the line status finds the transmitter ready.
abbrev pub Responds : (ℕ → ℕ) → ℕ → Type 0
Responds status fuel = (read : ℕ) → (k : ℕ) × (k < fuel) × (can_tx status (read + k) ≡ true)

-- Only the count of reads differs, and the bytes are sent behind the others.
pub record Sent (s : Serial) (bytes : List ℕ) (s' : Serial) : Type 0 where
  pub base : s'.base ≡ s.base
  pub is_ready : s'.is_ready ≡ s.is_ready
  pub sent : s'.sent ≡ s.sent ++ writes_at s.base bytes

writes_at-append :
    (base : ℕ) (xs ys : List ℕ) → writes_at base (xs ++ ys) ≡ writes_at base xs ++ writes_at base ys
writes_at-append base [] ys = refl
writes_at-append base (x ∷ xs) ys =
    ap (λ (l : List (ℕ × ℕ)). (base + 0, x) ∷ l) (writes_at-append base xs ys)

module _ (status : ℕ → ℕ) where
  wait_tx_ends :
      (fuel k : ℕ) (s : Serial)
      → k < fuel
      → can_tx status (s.reads + k) ≡ true
      → (reads : ℕ) × (wait_tx status fuel s ≡ some (record s { reads = reads }))
  unfolding wait_tx
  wait_tx_ends zero k s h ready = absurd (omega arith)
  wait_tx_ends (suc fuel) k s h ready = elim (Bool-cases (can_tx status s.reads)) [
    | inl now ↦ (s.reads + 1, rw now refl)
    | inr busy ↦
        let later : k ≢ 0 =
          λ e. true≢false (sym (rw e at ready) ∙ ap (can_tx status) (omega arith) ∙ busy) in
        let at : s.reads + 1 + (k - 1) ≡ s.reads + k = omega arith in
        rw busy (
          wait_tx_ends fuel (k - 1) (record s { reads = s.reads + 1 }) (omega arith)
            (ap (can_tx status) at ∙ ready))
  ]

  module _ (fuel : ℕ) (responds : Responds status fuel) where
    -- One byte.
    write_byte-Sent :
        (s : Serial) (v : ℕ)
        → s.is_ready ≡ true
        → (s' : Serial) × (write_byte status fuel s v ≡ some s') × Sent s (v ∷ []) s'
    unfolding write_byte
    write_byte-Sent s v ready =
        let (k, less, at) = responds s.reads in
        let (reads, waited) = wait_tx_ends fuel k s less at in
        (
          out8 (record s { reads = reads }) 0 v,
          rw (ap not ready, waited) refl,
          record { base = refl; is_ready = refl; sent = refl },
        )

    -- The wait alone.
    pub flush-Sent :
        (s : Serial)
        → s.is_ready ≡ true
        → (s' : Serial) × (flush status fuel s ≡ some s') × Sent s [] s'
    unfolding flush
    flush-Sent s ready =
        let (k, less, at) = responds s.reads in
        let (reads, waited) = wait_tx_ends fuel k s less at in
        (
          record s { reads = reads },
          rw (ap not ready) waited,
          record { base = refl; is_ready = refl; sent = sym (append-nil s.sent) },
        )

    pub Sent-trans :
        (s s1 s2 : Serial) (xs ys : List ℕ) → Sent s xs s1 → Sent s1 ys s2 → Sent s (xs ++ ys) s2
    Sent-trans s s1 s2 xs ys one two = record {
      base = two.base ∙ one.base;
      is_ready = two.is_ready ∙ one.is_ready;
      sent =
          two.sent
          ∙ ap (λ (l : List (ℕ × ℕ)). l ++ writes_at s1.base ys) one.sent
          ∙ append_assoc s.sent (writes_at s.base xs) (writes_at s1.base ys)
          ∙ ap (λ (b : ℕ). s.sent ++ (writes_at s.base xs ++ writes_at b ys)) one.base
          ∙ ap (λ (l : List (ℕ × ℕ)). s.sent ++ l) (sym (writes_at-append s.base xs ys));
    }

    write_loop_feed :
        (s s1 s2 : Serial) (ch : ℕ) (rest : List ℕ)
        → (ch == 10) ≡ true
        → write_byte status fuel s 13 ≡ some s1
        → write_byte status fuel s1 ch ≡ some s2
        → write_loop status fuel s (ch ∷ rest) ≡ write_loop status fuel s2 rest
    unfolding write_loop
    write_loop_feed s s1 s2 ch rest feed one two = rw (feed, one, two, write_loop) refl

    write_loop_plain :
        (s s2 : Serial) (ch : ℕ) (rest : List ℕ)
        → (ch == 10) ≡ false
        → write_byte status fuel s ch ≡ some s2
        → write_loop status fuel s (ch ∷ rest) ≡ write_loop status fuel s2 rest
    unfolding write_loop
    write_loop_plain s s2 ch rest plain two = rw (plain, two, write_loop) refl

    write_loop-Sent :
        (s : Serial) (text : List ℕ)
        → s.is_ready ≡ true
        → (s' : Serial) × (write_loop status fuel s text ≡ some s') × Sent s (with_returns text) s'
    write_loop-Sent s [] ready = (
      s,
      unfold write_loop in refl,
      record { base = refl; is_ready = refl; sent = sym (append-nil s.sent) },
    )
    write_loop-Sent s (ch ∷ rest) ready = elim (Bool-cases (ch == 10)) [
      | inl feed ↦
          let (s1, ok1, sent1) = write_byte-Sent s 13 ready in
          let (s2, ok2, sent2) = write_byte-Sent s1 ch (sent1.is_ready ∙ ready) in
          let (s3, ok3, sent3) =
            write_loop-Sent s2 rest (sent2.is_ready ∙ sent1.is_ready ∙ ready) in
          (
            s3,
            write_loop_feed s s1 s2 ch rest feed ok1 ok2 ∙ ok3,
            rw feed (
                Sent-trans s s1 s3 (13 ∷ []) (ch ∷ with_returns rest) sent1
                  (Sent-trans s1 s2 s3 (ch ∷ []) (with_returns rest) sent2 sent3)),
          )
      | inr plain ↦
          let (s2, ok2, sent2) = write_byte-Sent s ch ready in
          let (s3, ok3, sent3) = write_loop-Sent s2 rest (sent2.is_ready ∙ ready) in
          (
            s3,
            write_loop_plain s s2 ch rest plain ok2 ∙ ok3,
            rw plain (Sent-trans s s2 s3 (ch ∷ []) (with_returns rest) sent2 sent3),
          )
    ]

    -- When the transmitter becomes ready within `fuel` reads of the line status, from every read on,
    -- `Write` on a port that was set up ends and has sent the text, with a carriage return in front of
    -- every line feed, byte by byte to the base port, behind what was written before.
    pub write-Sent :
        (s : Serial) (text : List ℕ)
        → s.is_ready ≡ true
        → (s' : Serial) × (write status fuel s text ≡ some s') × Sent s (with_returns text) s'
    unfolding write
    write-Sent s text ready =
        let (s', ok, sent) = write_loop-Sent s text ready in (s', rw (ap not ready) ok, sent)
