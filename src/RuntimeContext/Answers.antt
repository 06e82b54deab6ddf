-- ===== src/RuntimeContext/Answers.antt =====
-- Calls of the parser of context packets that return, with what they accept.
use vrtio.Common.{
  ℕ, ◌*◌, ◌^◌, ◌≤◌, ◌<◌, ◌≡◌, refl, ◌∙◌, Bool, true, false, if◌then◌else◌, ltb→le, Run, done, arith,
}
use vrtio.Types.{ValidationError, buffer_too_small}
use vrtio.Header.{DecodedHeader}
use vrtio.RuntimeContext.{ContextStructure, VariableFieldInfo, Verdict, beyond}

-- The call returns, and what it leaves satisfies `P` if it reports no error.
pub record Answers (r : Run Verdict) (P : ContextStructure → Type 0) : Type 0 where
  pub verdict : Verdict
  pub returns : r ≡ done verdict
  pub accepts : verdict.0 ≡ ValidationError.none → P verdict.1

module _ {P : ContextStructure → Type 0} where
  pub refuses :
      {r : Run Verdict} (v : Verdict) → r ≡ done v → (v.0 ≡ ValidationError.none → ⊥) → Answers r P
  refuses v e bad = record { verdict = v; returns = e; accepts = λ ok. absurd (bad ok) }

  pub too_small : (s : ContextStructure) → Answers (done (buffer_too_small, s)) P
  too_small s = refuses (buffer_too_small, s) refl (λ k. ground arith)

  -- An early return, or the rest.
  pub stops :
      (b : Bool) (error : ValidationError) (s : ContextStructure) {r : Run Verdict}
      → (error ≡ ValidationError.none → ⊥)
      → (b ≡ false → Answers r P)
      → Answers (if b then done (error, s) else r) P
  stops true error s bad rest = refuses (error, s) refl bad
  stops false error s bad rest = rest refl

  pub guarded :
      (b : Bool) (s : ContextStructure) {r : Run Verdict}
      → (b ≡ false → Answers r P)
      → Answers (if b then done (buffer_too_small, s) else r) P
  guarded b s rest = stops b buffer_too_small s (λ k. ground arith) rest

  pub guarded_done :
      (b : Bool) (s : ContextStructure) {v : Verdict}
      → (b ≡ false → Answers (done v) P)
      → Answers (done (if b then (buffer_too_small, s) else v)) P
  guarded_done true s rest = too_small s
  guarded_done false s rest = rest refl

  pub same_answer : {r r' : Run Verdict} → r ≡ r' → Answers r' P → Answers r P
  same_answer e a = record { verdict = a.verdict; returns = e ∙ a.returns; accepts = a.accepts }

abbrev pub shape :
    DecodedHeader → ℕ → ℕ → ℕ → ℕ → VariableFieldInfo → VariableFieldInfo → ℕ → ContextStructure
shape h c0 c1 c2 c3 gps assoc base = record {
  header = h;
  has_stream_id = true;
  cif0 = c0;
  cif1 = c1;
  cif2 = c2;
  cif3 = c3;
  gps_ascii = gps;
  context_assoc = assoc;
  context_base_bytes = base;
  calculated_size_words = 0;
}

pub fits_word : (size words : ℕ) → words < 2 ^ 34 → beyond size words ≡ false → 4 * words ≤ size
fits_word size words h e = omega (arith, ltb→le _ _ e)
