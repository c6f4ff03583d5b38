-- ===== src/Root/Tracing/Traced.antt =====
-- What setupTracing leaves.
use mathlib.Core.List.{append-nil, append_assoc}
use virtual_kubelet_cmd.Base.{
  String, false, Option, none, some, List, [], ◌∷◌, ◌++◌, ◌≡◌, refl, sym, ◌∙◌, subst, ◌⊎◌, inl, inr,
  ◌==◌, string_equality, All, arith, Option-cases, Bool-cases, if◌then◌else◌,
}
use virtual_kubelet_cmd.Base.Dict.{Dict, find, find-insert}
use virtual_kubelet_cmd.Base.Outcome.{
  Outcome, ok, err, panic, ◌>>=◌, Ensures, Ensures-bind, Ensures-of, Ensures-weaken,
}
use virtual_kubelet_cmd.Errors.{Error}
use virtual_kubelet_cmd.Root.Opts.{Env, Opts, getenv, TracingExporterOptions}
use virtual_kubelet_cmd.Root.Tracing.{
  Tracer, Effect, Sampler, registers, samples, is_reserved, reserved_tag, tags_of, with_tags,
  call_exporter, get_tracing_exporter, setup_zpages, set_up_exporters, serves_zpages, sampler_of,
  apply_sampler, set_up_sampler, set_up_tagged, setup_tracing,
}
use virtual_kubelet_cmd.Root.Tracing.Sampled.{AsksFor, sampler_of-AsksFor}

-- The tags that an exporter gets: the three of the node, and those of the options.
abbrev pub tag_of : Opts → String → Option String
tag_of c k =
    if "nodeName" == k
    then some c.node_name
    else if "provider" == k
    then some c.provider
    else if "operatingSystem" == k
    then some c.operating_system
    else find k (tags_of c.trace_config.tags)

-- What an exporter is made with.
abbrev pub IsTagged : Opts → TracingExporterOptions → Type 0
IsTagged c o =
    (o.service_name ≡ c.trace_config.service_name)
    × ((k : String) → find k (tags_of o.tags) ≡ tag_of c k)

module _ {X : Type 0} (t : Tracer X) (e : Env) where
  -- The port for zpages has been tried: they are served if it could be listened on.
  abbrev pub IsTried : List (Effect X) → Type 0
  IsTried new =
      ((t.listen (getenv e "ZPAGES_PORT") ≡ none)
        × (new ≡ serves_zpages (getenv e "ZPAGES_PORT") ∷ []))
      ⊎ ((x : Error) × (t.listen (getenv e "ZPAGES_PORT") ≡ some x) × (new ≡ []))

  setup_zpages-IsTried : IsTried (setup_zpages t e)
  unfolding setup_zpages
  setup_zpages-IsTried = elim (Option-cases (t.listen (getenv e "ZPAGES_PORT"))) [
    | inl n ↦ rw (n, setup_zpages) (inl (refl, refl))
    | inr (x, n) ↦ rw (n, setup_zpages) (inr (x, refl, refl))
  ]

  -- An exporter is registered for each name but "zpages", in order: the one that is registered under
  -- the name, made with the options.
  abbrev pub AreExporters : TracingExporterOptions → List String → List (Effect X) → Type 0
  AreExporters o [] done = done ≡ []
  AreExporters o (name ∷ names) done =
      (((name ≡ "zpages")
          × (new : List (Effect X)) × (rest : List (Effect X)) × IsTried new
          × (done ≡ new ++ rest)
          × AreExporters o names rest)
        ⊎ ((f : TracingExporterOptions → Outcome Error X) × (x : X) × (rest : List (Effect X))
            × (find name t.exporters ≡ some f)
            × (f o ≡ ok x)
            × (done ≡ registers x ∷ rest)
            × AreExporters o names rest))

  with_tags-IsTagged : (c : Opts) → IsTagged c (with_tags c)
  unfolding with_tags
  with_tags-IsTagged c = (refl, λ k. simp find-insert)

  called :
      (name : String) (o : TracingExporterOptions)
      → Ensures
          (λ x.
            (f : TracingExporterOptions → Outcome Error X) × (find name t.exporters ≡ some f)
            × (f o ≡ ok x))
          (get_tracing_exporter t name o)
  unfolding get_tracing_exporter
  called name o = from (find name t.exporters) refl
    where
      from :
          (g : Option (TracingExporterOptions → Outcome Error X))
          → find name t.exporters ≡ g
          → Ensures
              (λ x.
                (f : TracingExporterOptions → Outcome Error X) × (find name t.exporters ≡ some f)
                × (f o ≡ ok x))
              (call_exporter name o g)
      from none q = tt
      from (some f) q = Ensures-of _ (f o) (λ x r. (f, q, r))

  set_up_exporters-AreExporters :
      (o : TracingExporterOptions) (names : List String) (done : List (Effect X))
      → Ensures
          (λ done'. (new : List (Effect X)) × (done' ≡ done ++ new) × AreExporters o names new)
          (set_up_exporters t e o names done)
  unfolding set_up_exporters
  set_up_exporters-AreExporters o [] done = ([], sym (append-nil done), refl)
  set_up_exporters-AreExporters o (name ∷ names) done = elim (Bool-cases (name == "zpages")) [
    | inl z ↦ rw z (
        Ensures-weaken _ _ (set_up_exporters t e o names (done ++ setup_zpages t e))
          (λ d r. (
            setup_zpages t e ++ r.0,
            r.1 ∙ append_assoc done (setup_zpages t e) r.0,
            inl (
              (string_equality.same_iff name "zpages").0 z,
              setup_zpages t e,
              r.0,
              setup_zpages-IsTried,
              refl,
              r.2,
            ),
          ))
          (set_up_exporters-AreExporters o names (done ++ setup_zpages t e)))
    | inr z ↦ rw z (
        Ensures-bind _ _ (get_tracing_exporter t name o) _ (called name o) (λ x c.
          Ensures-weaken _ _ (set_up_exporters t e o names (done ++ registers x ∷ []))
            (λ d r. (
              registers x ∷ r.0,
              r.1 ∙ append_assoc done (registers x ∷ []) r.0,
              inr (c.0, x, r.0, c.1, c.2, refl, r.2),
            ))
            (set_up_exporters-AreExporters o names (done ++ registers x ∷ []))))
  ]

  -- The sampler is set for the rate, if there is an exporter and the rate asks for one.
  abbrev pub IsSampled : Opts → List (Effect X) → List (Effect X) → Type 0
  IsSampled c made done =
      ((done ≡ made) × ((c.trace_exporters ≡ []) ⊎ AsksFor t e c.trace_sample_rate none))
      ⊎ ((s : Sampler) × (¬ (c.trace_exporters ≡ []))
          × AsksFor t e c.trace_sample_rate (some s)
          × (done ≡ made ++ samples s ∷ []))

  set_up_sampler-IsSampled :
      (c : Opts) (made : List (Effect X)) → Ensures (IsSampled c made) (set_up_sampler t e c made)
  set_up_sampler-IsSampled c made = from c.trace_exporters refl
    where
      sampled :
          (o : Outcome Error (Option Sampler))
          → ¬ (c.trace_exporters ≡ [])
          → Ensures (AsksFor t e c.trace_sample_rate) o
          → Ensures (IsSampled c made) (o >>= λ s. ok (apply_sampler made s))
      sampled (ok none) n q = inl (refl, inr q)
      sampled (ok (some s)) n q = inr (s, n, q, refl)
      sampled (err x) n q = tt
      sampled panic n q = tt

      from :
          (names : List String)
          → c.trace_exporters ≡ names
          → Ensures (IsSampled c made) (elim names [
            | [] ↦ ok made
            | x ∷ xs ↦ sampler_of t e c.trace_sample_rate >>= λ s. ok (apply_sampler made s)
          ])
      from [] q = inl (refl, inl q)
      from (x ∷ xs) q =
          sampled (sampler_of t e c.trace_sample_rate) (λ r. let f = sym r ∙ q in cc)
            (sampler_of-AsksFor t e c.trace_sample_rate)

  -- The keys that belong to the node.
  abbrev pub IsFree : String × String → Type 0
  IsFree (k, v) =
      ((k == "operatingSystem") ≡ false) × ((k == "provider") ≡ false) × ((k == "nodeName") ≡ false)

  none_reserved : (m : Dict String String) → reserved_tag m ≡ none → All IsFree m
  unfolding reserved_tag
  none_reserved [] h = tt
  none_reserved ((k, v) ∷ m) h = elim (Bool-cases (is_reserved k)) [
    | inl r ↦ let x : some k ≡ none = rw r at h in cc
    | inr r ↦ (ground (arith, r), none_reserved m (rw r at h))
  ]

  -- What setupTracing leaves when it succeeds.
  pub record IsTraced (c : Opts) (done : List (Effect X)) : Type 0 where
    pub unreserved : All IsFree (tags_of c.trace_config.tags)
    pub options : TracingExporterOptions
    pub tagged : IsTagged c options
    pub made : List (Effect X)
    pub exporters : AreExporters options c.trace_exporters made
    pub sampled : IsSampled c made done

  tagged-IsTraced :
      (c : Opts) (r : Option String)
      → reserved_tag (tags_of c.trace_config.tags) ≡ r
      → Ensures (IsTraced c) (set_up_tagged t e c r)
  tagged-IsTraced c (some k) q = tt
  tagged-IsTraced c none q =
      Ensures-bind _ (IsTraced c) (set_up_exporters t e (with_tags c) c.trace_exporters [])
        (set_up_sampler t e c) (set_up_exporters-AreExporters (with_tags c) c.trace_exporters [])
        (λ made r.
          Ensures-weaken (IsSampled c made) (IsTraced c) (set_up_sampler t e c made)
            (λ done s. record {
              unreserved = none_reserved (tags_of c.trace_config.tags) q;
              options = with_tags c;
              tagged = with_tags-IsTagged c;
              made = made;
              exporters = subst (AreExporters (with_tags c) c.trace_exporters) (sym (r.1)) r.2;
              sampled = s;
            })
            (set_up_sampler-IsSampled c made))

  -- When setupTracing succeeds, no tag of the options is a reserved one. It has registered, for
  -- each exporter of the options but "zpages" and in their order, what the exporter of that name
  -- made of the service name and of the tags of the options with nodeName, provider and
  -- operatingSystem; and for "zpages" it has tried the port. Then, if there is an exporter, it has
  -- set the sampler that the rate asks for: always, never, or the probability of a number from 0
  -- to 100. It has set none if there is no exporter, or if the rate is empty, a number outside 0
  -- to 100, or no number.
  pub setup_tracing-IsTraced :
      (c : Opts) (done : List (Effect X)) → setup_tracing t e c ≡ ok done → IsTraced c done
  unfolding setup_tracing
  setup_tracing-IsTraced c done h =
      subst (Ensures (IsTraced c)) h
        (tagged-IsTraced c (reserved_tag (tags_of c.trace_config.tags)) refl)
