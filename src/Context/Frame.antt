-- ===== src/Context/Frame.antt =====
-- Kernel/Arch/x86_64/CPU/SwitchContext.S: the frame that a switch leaves on the old stack and takes from
-- the new one.
use objective_hail_os.Prelude.{ℕ, ◌+◌, ◌-◌, ◌^◌, ◌≤◌, ◌<◌, ◌≡◌, refl, arith, ◌⊎◌}
use objective_hail_os.Context.{Registers, below, above, push_frame, pop_frame}

-- The words at `sp` hold the registers `r`, up to the stack pointer, with the return address above.
pub record Saved (words : ℕ → ℕ) (sp : ℕ) (r : Registers) : Type 0 where
  pub at_r15 : words sp ≡ r.r15
  pub at_r14 : words (sp + 8) ≡ r.r14
  pub at_r13 : words (sp + 16) ≡ r.r13
  pub at_r12 : words (sp + 24) ≡ r.r12
  pub at_rbx : words (sp + 32) ≡ r.rbx
  pub at_rbp : words (sp + 40) ≡ r.rbp
  pub at_rip : words (sp + 48) ≡ r.rip

-- The address lies outside the six words of a frame at `sp`.
abbrev pub Apart : ℕ → ℕ → Type 0
Apart sp a = (a < sp) ⊎ (sp + 48 ≤ a)

-- What a switch loads from a frame.
pub pop_frame-Saved :
    (sp : ℕ) (words : ℕ → ℕ) (r : Registers)
    → sp + 56 < 2 ^ 64
    → Saved words sp r
    → pop_frame sp words ≡ record r { rsp = sp + 56 }
unfolding pop_frame
pop_frame-Saved sp words r h saved =
    let e1 : above sp ≡ sp + 8 = omega arith in
    let e2 : above (sp + 8) ≡ sp + 16 = omega arith in
    let e3 : above (sp + 16) ≡ sp + 24 = omega arith in
    let e4 : above (sp + 24) ≡ sp + 32 = omega arith in
    let e5 : above (sp + 32) ≡ sp + 40 = omega arith in
    let e6 : above (sp + 40) ≡ sp + 48 = omega arith in
    let e7 : above (sp + 48) ≡ sp + 56 = omega arith in
    rw
      (
        e1, e2, e3, e4, e5, e6, e7, saved.at_r15, saved.at_r14, saved.at_r13, saved.at_r12,
        saved.at_rbx, saved.at_rbp, saved.at_rip,
      )
      refl

-- What the pushes of a switch write.
pub push_frame-Saved :
    (r : Registers) (words : ℕ → ℕ)
    → 48 ≤ r.rsp
    → r.rsp < 2 ^ 64
    → words r.rsp ≡ r.rip
    → ((push_frame r words).0 ≡ r.rsp - 48) × Saved (push_frame r words).1 (r.rsp - 48) r
unfolding push_frame
push_frame-Saved r words h lt ret =
    let e1 : below r.rsp ≡ r.rsp - 8 = omega arith in
    let e2 : below (r.rsp - 8) ≡ r.rsp - 16 = omega arith in
    let e3 : below (r.rsp - 16) ≡ r.rsp - 24 = omega arith in
    let e4 : below (r.rsp - 24) ≡ r.rsp - 32 = omega arith in
    let e5 : below (r.rsp - 32) ≡ r.rsp - 40 = omega arith in
    let e6 : below (r.rsp - 40) ≡ r.rsp - 48 = omega arith in
    rw (e1, e2, e3, e4, e5, e6)
      (
        refl,
        record {
          at_r15 = ground arith;
          at_r14 = ground arith;
          at_r13 = ground arith;
          at_r12 = ground arith;
          at_rbx = ground arith;
          at_rbp = ground arith;
          at_rip = let top : r.rsp - 48 + 48 ≡ r.rsp = omega arith in rw top (ground arith);
        },
      )

pub push_frame-Apart :
    (r : Registers) (words : ℕ → ℕ) (a : ℕ)
    → 48 ≤ r.rsp
    → r.rsp < 2 ^ 64
    → Apart (r.rsp - 48) a
    → (push_frame r words).1 a ≡ words a
unfolding push_frame
push_frame-Apart r words a h lt out =
    let e1 : below r.rsp ≡ r.rsp - 8 = omega arith in
    let e2 : below (r.rsp - 8) ≡ r.rsp - 16 = omega arith in
    let e3 : below (r.rsp - 16) ≡ r.rsp - 24 = omega arith in
    let e4 : below (r.rsp - 24) ≡ r.rsp - 32 = omega arith in
    let e5 : below (r.rsp - 32) ≡ r.rsp - 40 = omega arith in
    let e6 : below (r.rsp - 40) ≡ r.rsp - 48 = omega arith in
    rw (e1, e2, e3, e4, e5, e6) (ground arith)
