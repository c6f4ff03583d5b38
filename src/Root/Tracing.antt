-- ===== src/Root/Tracing.antt =====
-- internal/commands/root/tracing.go and tracing_register.go: the tags, the exporters and the sampler.
pub mod Exporters
pub mod Sampled
pub mod Traced
use virtual_kubelet_cmd.Base.{
  String, Bool, false, not, ◌&&◌, ◌||◌, Option, none, some, List, [], ◌∷◌, ◌++◌, ◌==◌, ◌≡◌, refl,
  string_equality, if◌then◌else◌, arith, ◌<>◌, Bool-cases, inl, inr,
}
use virtual_kubelet_cmd.Base.Int.{ℤ, pos, leb_int}
use virtual_kubelet_cmd.Base.Dict.{Dict, find, insert}
use virtual_kubelet_cmd.Base.Outcome.{Outcome, ok, err, panic, ◌>>=◌}
use virtual_kubelet_cmd.Errors.{Error, not_found, invalid_input}
use virtual_kubelet_cmd.Root.Opts.{Env, Opts, TracingExporterOptions, getenv}

-- octrace.Sampler; the rate in percent.
pub data Sampler : Type 0 where
  always_sample : Sampler
  never_sample : Sampler
  probability : ℤ → Sampler

-- What the set-up of tracing calls: the exporters that are registered, strings.ToLower,
-- errors.Wrap of an error or nil, errdefs.AsInvalidInput of an error or nil, and net.Listen. `X` is the type of
-- exporters.
pub record Tracer (X : Type 0) : Type 0 where
  pub exporters : Dict String (TracingExporterOptions → Outcome Error X)
  pub to_lower : String → String
  pub wrap : Option Error → String → Option Error
  pub as_invalid_input : Option Error → Option Error
  pub listen : String → Option Error

-- What tracing changes outside: an exporter is registered, zpages are served at a port, or the
-- default sampler is replaced.
pub data Effect (X : Type 0) : Type 0 where
  registers : X → Effect X
  serves_zpages : String → Effect X
  samples : Sampler → Effect X

abbrev pub is_reserved : String → Bool
is_reserved k = k == "operatingSystem" || k == "provider" || k == "nodeName"

-- The loop over the tags: the first reserved one.
unfoldable pub reserved_tag : Dict String String → Option String
reserved_tag [] = none
reserved_tag ((k, v) ∷ m) = if is_reserved k then some k else reserved_tag m

abbrev pub tags_of : Option (Dict String String) → Dict String String
tags_of none = []
tags_of (some m) = m

unfoldable pub with_tags : Opts → TracingExporterOptions
with_tags c = record c.trace_config {
  tags = some (
      insert "nodeName" c.node_name (
        insert "provider" c.provider
          (insert "operatingSystem" c.operating_system (tags_of c.trace_config.tags))));
}

-- `return err` of an error that may be nil.
abbrev pub return_error : Option Error → Outcome Error (Option Sampler)
return_error none = ok none
return_error (some e) = err e

module _ {X : Type 0} where
  abbrev pub call_exporter :
      String
      → TracingExporterOptions
      → Option (TracingExporterOptions → Outcome Error X)
      → Outcome Error X
  call_exporter name o none = err (not_found ("tracing exporter " <> name <> " not found"))
  call_exporter name o (some f) = f o

  -- GetTracingExporter
  unfoldable pub get_tracing_exporter : Tracer X → String → TracingExporterOptions → Outcome Error X
  get_tracing_exporter t name o = call_exporter name o (find name t.exporters)

  -- setupZpages: a port that is missing is logged, and tried all the same.
  unfoldable pub setup_zpages : Tracer X → Env → List (Effect X)
  setup_zpages t e = elim (t.listen (getenv e "ZPAGES_PORT")) [
    | none ↦ serves_zpages (getenv e "ZPAGES_PORT") ∷ []
    | some x ↦ []
  ]

  -- The loop over the exporters, with what it has done: an error ends it.
  unfoldable pub set_up_exporters :
      Tracer X
      → Env
      → TracingExporterOptions
      → List String
      → List (Effect X)
      → Outcome Error (List (Effect X))
  unfolding get_tracing_exporter setup_zpages
  set_up_exporters t env o [] done = ok done
  set_up_exporters t env o (e ∷ es) done =
      if e == "zpages"
      then set_up_exporters t env o es (done ++ setup_zpages t env)
      else get_tracing_exporter t e o >>= λ x.
          set_up_exporters t env o es (done ++ registers x ∷ [])

  -- The number of the rate: it is refused outside 0 to 100, by wrapping the error of the parse,
  -- which is nil here.
  unfoldable pub sampler_at : Tracer X → Outcome Error ℤ → Outcome Error (Option Sampler)
  sampler_at t (ok rate) =
      if not (leb_int (pos 0) rate) || not (leb_int rate (pos 100))
      then return_error
          (t.as_invalid_input (t.wrap none "trace sample rate must be between 0 and 100"))
      else ok (some (probability rate))
  sampler_at t (err e) =
      return_error (t.as_invalid_input (t.wrap (some e) "unsupported trace sample rate"))
  sampler_at t panic = panic

  -- The switch over the rate.
  unfoldable pub sampler_of : Tracer X → Env → String → Outcome Error (Option Sampler)
  unfolding sampler_at
  sampler_of t e rate =
      if t.to_lower rate == ""
      then ok none
      else if t.to_lower rate == "always"
      then ok (some always_sample)
      else if t.to_lower rate == "never"
      then ok (some never_sample)
      else sampler_at t (e.atoi rate)

  abbrev pub apply_sampler : List (Effect X) → Option Sampler → List (Effect X)
  apply_sampler done none = done
  apply_sampler done (some s) = done ++ samples s ∷ []

  abbrev pub set_up_sampler :
      Tracer X → Env → Opts → List (Effect X) → Outcome Error (List (Effect X))
  set_up_sampler t e c done = elim c.trace_exporters [
    | [] ↦ ok done
    | x ∷ xs ↦ sampler_of t e c.trace_sample_rate >>= λ s. ok (apply_sampler done s)
  ]

  abbrev pub set_up_tagged : Tracer X → Env → Opts → Option String → Outcome Error (List (Effect X))
  set_up_tagged t e c (some k) =
      err (invalid_input ("invalid trace tag " <> k <> ", must not use a reserved tag key"))
  set_up_tagged t e c none =
      set_up_exporters t e (with_tags c) c.trace_exporters [] >>= set_up_sampler t e c

  -- setupTracing: what it does outside, or its error.
  unfoldable pub setup_tracing : Tracer X → Env → Opts → Outcome Error (List (Effect X))
  unfolding set_up_exporters sampler_of reserved_tag with_tags
  setup_tracing t e c = set_up_tagged t e c (reserved_tag (tags_of c.trace_config.tags))

  -- errors.Wrap and errdefs.AsInvalidInput give nil for nil.
  abbrev pub KeepsNil : Tracer X → Type 0
  KeepsNil t = ((m : String) → t.wrap none m ≡ none) × (t.as_invalid_input none ≡ none)

  -- A sample rate that is a number outside 0 to 100 gives no error and no sampler, when
  -- errors.Wrap and AsInvalidInput give nil for nil.
  pub sampler_out_of_range :
      (t : Tracer X) (rate : ℤ)
      → KeepsNil t
      → (leb_int (pos 0) rate && leb_int rate (pos 100)) ≡ false
      → sampler_at t (ok rate) ≡ ok none
  unfolding sampler_at
  sampler_out_of_range t rate (w, a) h = elim (Bool-cases (leb_int (pos 0) rate)) [
    | inl e ↦ elim (Bool-cases (leb_int rate (pos 100))) [
      | inl f ↦ ground (arith, e, f, h)
      | inr f ↦ rw (e, f, w, a) refl
    ]
    | inr e ↦ rw (e, w, a) refl
  ]
