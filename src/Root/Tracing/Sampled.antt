-- ===== src/Root/Tracing/Sampled.antt =====
-- Which sampler the rate of setupTracing asks for.
use virtual_kubelet_cmd.Base.{
  String, false, Option, none, some, ◌≡◌, refl, ◌⊎◌, inl, inr, ◌==◌, string_equality, Bool, true,
  ◌&&◌, Bool-cases,
}
use virtual_kubelet_cmd.Base.Outcome.{Outcome, ok, err, panic, Ensures}
use virtual_kubelet_cmd.Base.Int.{ℤ, pos, leb_int}
use virtual_kubelet_cmd.Errors.{Error}
use virtual_kubelet_cmd.Root.Opts.{Env}
use virtual_kubelet_cmd.Root.Tracing.{
  Tracer, Sampler, sampler_at, return_error, always_sample, never_sample, probability, sampler_of,
}

module _ {X : Type 0} (t : Tracer X) (e : Env) where
  -- A number of the rate in percent, and whether it is one.
  abbrev is_percent : ℤ → Bool
  is_percent n = leb_int (pos 0) n && leb_int n (pos 100)

  -- What the rate asks for: a sampler by its name or its number; or none, by an empty rate, a number
  -- that is no percentage, or a text that is no number but whose error came back as nil.
  abbrev pub AsksFor : String → Option Sampler → Type 0
  AsksFor rate none =
      (t.to_lower rate ≡ "")
      ⊎ (((n : ℤ) × (e.atoi rate ≡ ok n) × (is_percent n ≡ false))
          ⊎ ((x : Error) × (e.atoi rate ≡ err x)))
  AsksFor rate (some s) =
      ((t.to_lower rate ≡ "always") × (s ≡ always_sample))
      ⊎ (((t.to_lower rate ≡ "never") × (s ≡ never_sample))
          ⊎ ((n : ℤ) × (e.atoi rate ≡ ok n) × (is_percent n ≡ true) × (s ≡ probability n)))

  return_error-AsksFor :
      (rate : String) (o : Option Error)
      → AsksFor rate none
      → Ensures (AsksFor rate) (return_error o)
  return_error-AsksFor rate none a = a
  return_error-AsksFor rate (some x) a = tt

  sampler_at-AsksFor :
      (rate : String) (o : Outcome Error ℤ)
      → e.atoi rate ≡ o
      → Ensures (AsksFor rate) (sampler_at t o)
  unfolding sampler_at
  sampler_at-AsksFor rate (ok n) q = elim (Bool-cases (leb_int (pos 0) n)) [
    | inl a ↦ elim (Bool-cases (leb_int n (pos 100))) [
      | inl b ↦ rw (a, b) (inr (inr (n, q, rw (a, b) refl, refl)))
      | inr b ↦ rw (a, b) (return_error-AsksFor rate _ (inr (inl (n, q, rw (a, b) refl))))
    ]
    | inr a ↦ rw a (return_error-AsksFor rate _ (inr (inl (n, q, rw a refl))))
  ]
  sampler_at-AsksFor rate (err x) q = return_error-AsksFor rate _ (inr (inr (x, q)))
  sampler_at-AsksFor rate panic q = tt

  pub sampler_of-AsksFor : (rate : String) → Ensures (AsksFor rate) (sampler_of t e rate)
  unfolding sampler_of
  sampler_of-AsksFor rate = elim (Bool-cases (t.to_lower rate == "")) [
    | inl a ↦ rw a (inl ((string_equality.same_iff _ _).0 a))
    | inr a ↦ elim (Bool-cases (t.to_lower rate == "always")) [
      | inl b ↦ rw (a, b) (inl ((string_equality.same_iff _ _).0 b, refl))
      | inr b ↦ elim (Bool-cases (t.to_lower rate == "never")) [
        | inl c ↦ rw (a, b, c) (inr (inl ((string_equality.same_iff _ _).0 c, refl)))
        | inr c ↦ rw (a, b, c) (sampler_at-AsksFor rate (e.atoi rate) refl)
      ]
    ]
  ]
