-- ===== src/Loader/Fuel.antt =====
-- The reader of src/loader.c always ends: the fuel that program_load starts with is enough for
-- every file.
use sakura_slemu.Base.{
  ℕ, zero, suc, ◌≤◌, ◌<◌, ◌≢◌, Bool, true, false, List, [], ◌∷◌, length, arith, if◌then◌else◌,
}
use sakura_slemu.Syntax.{Expr, Stmt}
use sakura_slemu.Loader.Rdr.{
  Rd, Read, got, fail, fault, no_fuel, pure, failed, after, ◌>>=◌, r_u8, r_u32, r_u64, r_i64,
  r_bytes, read_n,
}
use sakura_slemu.Loader.Nodes.{
  read_node, read_expr, read_expr_with, read_if, read_form, read_line, read_stmt, read_stmt_with,
}
use sakura_slemu.Loader.Load.{
  read_string, read_param, read_global, read_func, read_event, read_state, read_body,
  read_versioned, read_program, program_load,
}

-- A read that did not run out of fuel, and leaves at most `k` bytes.
data Ends {A : Type 0} (k : ℕ) : Read A → Type 0 where
  ends_got : (a : A) (bs : List ℕ) → length bs ≤ k → Ends k (got a bs)
  ends_fail : Ends k fail
  ends_fault : Ends k fault

record Safe {A : Type 0} (k : ℕ) (m : Rd A) : Type 0 where
  at : (bs : List ℕ) → length bs ≤ k → Ends k (m bs)

module _ {A : Type 0} {k : ℕ} where
  Safe-pure : (a : A) → Safe k (pure a)
  Safe-pure a = record { at = λ bs h. ends_got a bs h }

  Safe-failed : Safe k (failed {A = A})
  Safe-failed = record { at = λ bs h. ends_fail }

  Safe-fault : Safe {A = A} k (λ bs. fault)
  Safe-fault = record { at = λ bs h. ends_fault }

  Safe-if : (b : Bool) (m n : Rd A) → Safe k m → Safe k n → Safe k (if b then m else n)
  Safe-if true m n hm hn = hm
  Safe-if false m n hm hn = hn

weaken : {A : Type 0} {j k : ℕ} {r : Read A} → j ≤ k → Ends j r → Ends k r
weaken l (ends_got b cs h) = ends_got b cs (omega arith)
weaken l ends_fail = ends_fail
weaken l ends_fault = ends_fault

module _ {A B : Type 0} where
  after-Ends :
      {k : ℕ} {r : Read A} (f : A → Rd B) → Ends k r → ((a : A) → Safe k (f a)) → Ends k (after r f)
  after-Ends f (ends_got a bs h) hf = (hf a).at bs h
  after-Ends f ends_fail hf = ends_fail
  after-Ends f ends_fault hf = ends_fault

  Safe-bind :
      {k : ℕ} (m : Rd A) (f : A → Rd B) → Safe k m → ((a : A) → Safe k (f a)) → Safe k (m >>= f)
  Safe-bind m f hm hf = record { at = λ bs h. after-Ends f (hm.at bs h) hf }

module _ {k : ℕ} where
  Safe-r_u8 : Safe k r_u8
  unfolding r_u8
  Safe-r_u8 = record {
    at = elim [ [] ↦ λ h. ends_fail | b ∷ bs ↦ λ h. ends_got b bs (omega arith) ];
  }

  u32-Ends : (bs : List ℕ) → length bs ≤ k → Ends k (r_u32 bs)
  unfolding r_u32
  u32-Ends (a ∷ b ∷ c ∷ d ∷ bs) h = ends_got _ bs (omega arith)
  u32-Ends [] h = ends_fail
  u32-Ends (_ ∷ []) h = ends_fail
  u32-Ends (_ ∷ _ ∷ []) h = ends_fail
  u32-Ends (_ ∷ _ ∷ _ ∷ []) h = ends_fail

  Safe-r_u32 : Safe k r_u32
  Safe-r_u32 = record { at = u32-Ends }

  Safe-r_u64 : Safe k r_u64
  unfolding r_u64
  Safe-r_u64 = Safe-bind _ _ Safe-r_u32 λ lo. Safe-bind _ _ Safe-r_u32 λ hi. Safe-pure _

  Safe-r_i64 : Safe k r_i64
  unfolding r_i64
  Safe-r_i64 = Safe-bind _ _ Safe-r_u64 λ v. Safe-pure _

  bytes-Ends : (n : ℕ) (bs : List ℕ) → length bs ≤ k → Ends k (r_bytes n bs)
  unfolding r_bytes
  bytes-Ends zero bs h = ends_got [] bs h
  bytes-Ends (suc n) [] h = ends_fail
  bytes-Ends (suc n) (b ∷ bs) h =
      after-Ends _ (bytes-Ends n bs (omega arith))
        λ l. record { at = λ cs h'. ends_got (b ∷ l) cs h' }

  Safe-r_bytes : (n : ℕ) → Safe k (r_bytes n)
  Safe-r_bytes n = record { at = bytes-Ends n }

  Safe-read_n : {A : Type 0} (m : Rd A) (n : ℕ) → Safe k m → Safe k (read_n m n)
  unfolding read_n
  Safe-read_n m zero h = Safe-pure []
  Safe-read_n m (suc n) h =
      Safe-bind _ _ h λ x. Safe-bind _ _ (Safe-read_n m n h) λ xs. Safe-pure (x ∷ xs)

  Safe-read_if : {A : Type 0} (d : A) (m : Rd A) (flag : ℕ) → Safe k m → Safe k (read_if d m flag)
  Safe-read_if d m flag h = Safe-if _ _ _ (Safe-pure d) h

  Safe-read_line : (ver : ℕ) → Safe k (read_line ver)
  Safe-read_line ver = Safe-if _ _ _ Safe-r_u32 (Safe-pure 0)

ruleset safe_rules = (
  Safe-pure, Safe-failed, Safe-fault, Safe-if, Safe-bind, Safe-r_u8, Safe-r_u32, Safe-r_u64,
  Safe-r_i64, Safe-r_bytes, Safe-read_n,
)

module _ {k : ℕ} where
  Safe-read_node : (sub : Rd Expr) (tag : ℕ) → Safe k sub → Safe k (read_node sub tag)
  unfolding read_node
  Safe-read_node sub tag h = search safe_rules depth 30

  Safe-read_form :
      (e : Rd Expr) (s : Rd Stmt) (tag : ℕ) → Safe k e → Safe k s → Safe k (read_form e s tag)
  unfolding read_form
  Safe-read_form e s tag he hs = search safe_rules depth 30

-- A nested read has consumed its tag, and one unit of fuel.
expr-Ends :
    {k : ℕ} (sub : Rd Expr) (bs : List ℕ)
    → ((bs' : List ℕ) → suc (length bs') ≤ k → Safe (length bs') sub)
    → length bs ≤ k
    → Ends k (read_expr_with sub bs)
unfolding read_expr_with r_u8
expr-Ends sub [] h l = ends_fail
expr-Ends sub (b ∷ bs) h l =
    let safe : Safe (length bs) sub = h bs l in
    let node : (tag : ℕ) → Safe (length bs) (read_node sub tag) =
      λ tag. Safe-read_node sub tag safe in
    weaken (omega arith) (
      (Safe-if _ _ _ (Safe-pure Expr.null) (
          Safe-bind _ _ Safe-r_u8
            λ ty. Safe-bind _ _ Safe-r_u8 λ lv. Safe-bind _ _ (node b) λ n. Safe-pure _)).at
        bs (omega arith))

Safe-read_expr : (fuel k : ℕ) → k < fuel → Safe k (read_expr fuel)
unfolding read_expr
Safe-read_expr zero k h = absurd (omega arith)
Safe-read_expr (suc fuel) k h = record {
  at = λ bs l.
      expr-Ends (read_expr fuel) bs (λ bs' l'. Safe-read_expr fuel (length bs') (omega arith)) l;
}

stmt-Ends :
    {k : ℕ} (ver : ℕ) (e : Rd Expr) (s : Rd Stmt) (bs : List ℕ)
    → ((bs' : List ℕ) → suc (length bs') ≤ k → Safe (length bs') e × Safe (length bs') s)
    → length bs ≤ k
    → Ends k (read_stmt_with ver e s bs)
unfolding read_stmt_with r_u8
stmt-Ends ver e s [] h l = ends_fail
stmt-Ends ver e s (b ∷ bs) h l =
    let (he, hs) = h bs l in
    weaken (omega arith) (
      (Safe-if _ _ _ (Safe-pure Stmt.null) (
          Safe-bind _ _ (Safe-read_line ver)
            λ line. Safe-bind _ _ (Safe-read_form e s b he hs) λ f. Safe-pure _)).at
        bs (omega arith))

Safe-read_stmt : (ver fuel k : ℕ) → k < fuel → Safe k (read_stmt ver fuel)
unfolding read_stmt
Safe-read_stmt ver zero k h = absurd (omega arith)
Safe-read_stmt ver (suc fuel) k h = record {
  at = λ bs l.
      stmt-Ends ver (read_expr fuel) (read_stmt ver fuel) bs
        (λ bs' l'. (
          Safe-read_expr fuel (length bs') (omega arith),
          Safe-read_stmt ver fuel (length bs') (omega arith),
        ))
        l;
}

module _ (ver fuel k : ℕ) (low : k < fuel) where
  expr-Safe : Safe k (read_expr fuel)
  expr-Safe = Safe-read_expr fuel k low

  stmt-Safe : Safe k (read_stmt ver fuel)
  stmt-Safe = Safe-read_stmt ver fuel k low

  param-Safe : Safe k read_param
  unfolding read_param
  param-Safe = search safe_rules depth 30

  string-Safe : Safe k read_string
  unfolding read_string
  string-Safe = search safe_rules depth 30

  global-Safe : Safe k (read_global ver fuel)
  unfolding read_global
  global-Safe = search (safe_rules, expr-Safe) depth 30

  func-Safe : Safe k (read_func ver fuel)
  unfolding read_func
  func-Safe = search (safe_rules, stmt-Safe, param-Safe) depth 30

  event-Safe : Safe k (read_event ver fuel)
  unfolding read_event
  event-Safe = search (safe_rules, stmt-Safe, param-Safe) depth 30

  state-Safe : Safe k (read_state ver fuel)
  unfolding read_state
  state-Safe = search (safe_rules, event-Safe) depth 30

  body-Safe : (flags : ℕ) → Safe k (read_body ver fuel flags)
  unfolding read_body
  body-Safe flags = search (safe_rules, string-Safe, global-Safe, func-Safe, state-Safe) depth 30

versioned-Safe : (fuel k : ℕ) → k < fuel → Safe k (read_versioned fuel)
unfolding read_versioned
versioned-Safe fuel k low = search (safe_rules, λ (ver : ℕ). body-Safe ver fuel k low) depth 30

program-Safe : (fuel k : ℕ) → k < fuel → Safe k (read_program fuel)
unfolding read_program
program-Safe fuel k low =
    Safe-bind _ _ (Safe-r_bytes 5) λ m. Safe-if _ _ _ (versioned-Safe fuel k low) Safe-failed

Ends-ne : {A : Type 0} {k : ℕ} {r : Read A} → Ends k r → r ≢ no_fuel
Ends-ne (ends_got a bs h) = λ e. cc
Ends-ne ends_fail = λ e. cc
Ends-ne ends_fault = λ e. cc

-- program_load ends on the bytes of every file: it gives a program, refuses the file, or meets the
-- undefined write, and never runs out of the fuel that it starts with.
pub program_load_ends : (buf : List ℕ) → program_load buf ≢ no_fuel
unfolding program_load
program_load_ends buf =
    Ends-ne ((program-Safe (suc (length buf)) (length buf) (omega arith)).at buf (omega arith))
