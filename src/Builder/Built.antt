-- ===== src/Builder/Built.antt =====
-- The pipeline that a valid configuration gives.
use pipelinex.Prelude.{
  ap, ℕ, ◌<◌, ◌≡◌, refl, String, Bool, true, false, List, [], ◌∷◌, ◌++◌, Option, some, map, arith,
  inl, inr,
}
use pipelinex.Prelude.Tests.{if◌then◌else◌, Bool-cases}
use pipelinex.Prelude.Lists.{length, replicate}
use pipelinex.Exceptions.{ErrorKind, Result, and_then, and_then_inv, returns_inv}
use pipelinex.Factories.{create}
use pipelinex.Executor.{Executor}
use pipelinex.Executor.{init as init_executor}
use pipelinex.Executor.Actions.{Action}
use pipelinex.Executor.Actions.{run as run_executor}
use pipelinex.Executor.Progress.{CanFinish, run-CanFinish}
use pipelinex.Configuration.{
  ValidatorConfig, DetectorConfig, SessionizerConfig, TemplateMatcherConfig, PipelineConfig,
  parse_config,
}
use pipelinex.Builder.{
  Classes, Stage, from_factory, build_each, build_validator, build_parser_stage,
  build_validation_stage, build_template_stage, accepts_settings, build_sessionizer,
  build_detector_stage, BuiltPipeline, Repository, Source, build_repository, build_source,
  build_sequence_detector, assemble, build_pipeline, executor_config,
}

map-append : {A B : Type 0} (f : A → B) (xs ys : List A) → map f (xs ++ ys) ≡ map f xs ++ map f ys
map-append f [] ys = refl
map-append f (x ∷ xs) ys = ap (λ rest. f x ∷ rest) (map-append f xs ys)

module _ {F : Type 0} (k : Classes F) where
  -- The place of a stage in the standard order: parse, validate, templates, sessionizer, detectors.
  abbrev pub rank : Stage k → ℕ
  rank (Stage.parse p) = 0
  rank (Stage.validate vs) = 1
  rank (Stage.match_templates t) = 2
  rank (Stage.sessionize c) = 3
  rank (Stage.detect d) = 4

  -- The places of the stages that a configuration asks for.
  abbrev pub standard_order : PipelineConfig F → List ℕ
  standard_order c =
      0 ∷ (elim c.validation [ [] ↦ [] | _ ∷ _ ↦ 1 ∷ [] ])
      ++ (if c.template_matcher.enabled then 2 ∷ [] else [])
      ++ (if c.sessionizer.enabled then 3 ∷ [] else [])
      ++ replicate (length c.detectors) 4

  parser_rank :
      (kind : String) {stage : Stage k}
      → build_parser_stage k kind ≡ Result.returns stage
      → rank stage ≡ 0
  parser_rank kind {stage} h =
      let (p, _, made) =
        and_then_inv (from_factory k (create k.parsers kind)) (λ p. Result.returns (Stage.parse p))
          h in
      let same : stage ≡ Stage.parse p = returns_inv made in rw same refl

  validation_ranks :
      (cs : List (ValidatorConfig F)) {stages : List (Stage k)}
      → build_validation_stage k cs ≡ Result.returns stages
      → map rank stages ≡ elim cs [ [] ↦ [] | _ ∷ _ ↦ 1 ∷ [] ]
  validation_ranks [] h = rw (returns_inv h) refl
  validation_ranks (c ∷ cs) {stages} h =
      let (vs, _, made) =
        and_then_inv (build_each k (build_validator k) (c ∷ cs))
          (λ vs. Result.returns (Stage.validate vs ∷ [])) h in
      let same : stages ≡ Stage.validate vs ∷ [] = returns_inv made in rw same refl

  template_ranks :
      (c : TemplateMatcherConfig) {stages : List (Stage k)}
      → build_template_stage k c ≡ Result.returns stages
      → map rank stages ≡ (if c.enabled then 2 ∷ [] else [])
  template_ranks c {stages} h = elim (Bool-cases c.enabled) [
    | inl on ↦
        let (t, _, made) =
          and_then_inv (k.template_matcher c.templates_path)
            (λ t. Result.returns (Stage.match_templates t ∷ []))
            (rw (build_template_stage, on) at h) in
        let same : stages ≡ Stage.match_templates t ∷ [] = returns_inv made in rw (same, on) refl
    | inr off ↦ rw (returns_inv (rw (build_template_stage, off) at h), off) refl
  ]

  -- A sessionizer that is asked for has settings that its stage accepts.
  abbrev pub HasSettings : SessionizerConfig F → Type 0
  HasSettings c = c.enabled ≡ true → accepts_settings k c ≡ true

  ranks_if :
      (c : SessionizerConfig F) (enabled accepted : Bool) {stages : List (Stage k)}
      → (if enabled
          then if accepted
            then Result.returns (Stage.sessionize c ∷ [])
            else Result.raises ErrorKind.other
          else Result.returns [])
        ≡ Result.returns stages
      → (map rank stages ≡ (if enabled then 3 ∷ [] else [])) × (enabled ≡ true → accepted ≡ true)
  ranks_if c false accepted h = (rw (returns_inv h) refl, λ on. cc)
  ranks_if c true true h = (rw (returns_inv h) refl, λ on. refl)
  ranks_if c true false h = cc

  sessionizer_ranks :
      (c : SessionizerConfig F) {stages : List (Stage k)}
      → build_sessionizer k c ≡ Result.returns stages
      → (map rank stages ≡ (if c.enabled then 3 ∷ [] else [])) × HasSettings c
  sessionizer_ranks c h = ranks_if c c.enabled (accepts_settings k c) h

  detector_rank :
      (c : DetectorConfig F) {stage : Stage k}
      → build_detector_stage k c ≡ Result.returns stage
      → rank stage ≡ 4
  detector_rank c {stage} h =
      let (make, _, h') =
        and_then_inv (from_factory k (create k.numeric c.kind))
          (λ make. and_then (make c.entries) (λ d. Result.returns (Stage.detect d))) h in
      let (d, _, made) = and_then_inv (make c.entries) (λ d. Result.returns (Stage.detect d)) h' in
      let same : stage ≡ Stage.detect d = returns_inv made in rw same refl

  detector_ranks :
      (cs : List (DetectorConfig F)) {stages : List (Stage k)}
      → build_each k (build_detector_stage k) cs ≡ Result.returns stages
      → map rank stages ≡ replicate (length cs) 4
  detector_ranks [] h = rw (returns_inv h) refl
  detector_ranks (c ∷ cs) {stages} h =
      let (stage, one, h') =
        and_then_inv (build_detector_stage k c)
          (λ b. and_then (build_each k (build_detector_stage k) cs) (λ bs. Result.returns (b ∷ bs)))
          h in
      let (rest, more, made) =
        and_then_inv (build_each k (build_detector_stage k) cs) (λ bs. Result.returns (stage ∷ bs))
          h' in
      let same : stages ≡ stage ∷ rest = returns_inv made in
      rw (same, detector_rank c one, detector_ranks cs more) refl

  -- A pipeline with its stages in the standard order, whose run is never stuck.
  abbrev pub IsSound : PipelineConfig F → BuiltPipeline k → Type 0
  IsSound c b =
      (map rank b.stages ≡ standard_order c)
      × HasSettings c.sessionizer
      × ((run_id : ℕ) (lines : List String) (schedule : List (Action F)) (s : Executor F)
          → run_executor schedule (init_executor (executor_config k run_id b) lines) ≡ some s
          → CanFinish s)

  -- The parts of an assembled pipeline have been constructed.
  assemble_inv :
      (c : PipelineConfig F) (repository_r : Result Repository) (source_r : Result (Source F))
      (parser_r : Result (Stage k))
      (validator_r template_r sessionizer_r detectors_r : Result (List (Stage k)))
      (sequence_r : Result (Option k.SequenceDetector)) (b : BuiltPipeline k)
      → assemble k c repository_r source_r parser_r validator_r template_r sessionizer_r detectors_r
          sequence_r
        ≡ Result.returns b
      → (parser_stage : Stage k) × (validator_stage : List (Stage k)) × (template_stage : List
          (Stage k))
        × (sessionizer_stage detector_stages : List (Stage k)) × (parser_r
            ≡ Result.returns parser_stage)
        × (validator_r ≡ Result.returns validator_stage)
        × (template_r ≡ Result.returns template_stage)
        × (sessionizer_r ≡ Result.returns sessionizer_stage)
        × (detectors_r ≡ Result.returns detector_stages)
        × (b.stages
            ≡ parser_stage ∷ validator_stage
              ++ template_stage
              ++ sessionizer_stage
              ++ detector_stages)
        × (b.runtime ≡ c.runtime)
  assemble_inv c repository_r source_r parser_r validator_r template_r sessionizer_r detectors_r
        sequence_r b h0 =
      let (repository, _, h1) = and_then_inv repository_r _ h0 in
      let (source, _, h2) = and_then_inv source_r _ h1 in
      let (parser_stage, parser_built, h3) = and_then_inv parser_r _ h2 in
      let (validator_stage, validator_built, h4) = and_then_inv validator_r _ h3 in
      let (template_stage, template_built, h5) = and_then_inv template_r _ h4 in
      let (sessionizer_stage, sessionizer_built, h6) = and_then_inv sessionizer_r _ h5 in
      let (detector_stages, detectors_built, h7) = and_then_inv detectors_r _ h6 in
      let (sequence_detector, _, made) = and_then_inv sequence_r _ h7 in
      (
        parser_stage,
        validator_stage,
        template_stage,
        sessionizer_stage,
        detector_stages,
        parser_built,
        validator_built,
        template_built,
        sessionizer_built,
        detectors_built,
        ap (λ p. p.stages) (returns_inv made),
        ap (λ p. p.runtime) (returns_inv made),
      )

  ranks_of_parts :
      (p : Stage k) (v t s d : List (Stage k))
      → map rank (p ∷ v ++ t ++ s ++ d)
        ≡ rank p ∷ map rank v ++ map rank t ++ map rank s ++ map rank d
  ranks_of_parts p v t s d = simp (map-append {A = Stage k} {B = ℕ} rank)

  pub ordered :
      (c : PipelineConfig F) (b : BuiltPipeline k)
      → build_pipeline k c ≡ Result.returns b
      → (map rank b.stages ≡ standard_order c) × (b.runtime ≡ c.runtime) × HasSettings c.sessionizer
  unfolding build_pipeline
  ordered c b h =
      let (
        p, v, t, s, d, parser_built, validator_built, template_built, sessionizer_built,
        detectors_built, same, settings,
      ) =
        assemble_inv c (build_repository k c.repository) (build_source k c.source)
          (build_parser_stage k c.parser_kind) (build_validation_stage k c.validation)
          (build_template_stage k c.template_matcher) (build_sessionizer k c.sessionizer)
          (build_each k (build_detector_stage k) c.detectors)
          (build_sequence_detector k c.sequence_detector) b h in
      (
        rw
            (
              same,
              ranks_of_parts p v t s d,
              parser_rank c.parser_kind parser_built,
              validation_ranks c.validation validator_built,
              template_ranks c.template_matcher template_built,
              (sessionizer_ranks c.sessionizer sessionizer_built).0,
              detector_ranks c.detectors detectors_built,
            )
            refl,
        settings,
        (sessionizer_ranks c.sessionizer sessionizer_built).1,
      )

  pub bounds_of :
      (positive : F → Bool) (c valid : PipelineConfig F)
      → parse_config positive c ≡ Result.returns valid
      → (0 < valid.runtime.num_workers) × (0 < valid.runtime.batch_size)
  unfolding parse_config
  bounds_of positive c valid h = ground (arith, h)

  -- A configuration that is accepted and built has its stages in the standard order, with one for
  -- each part that it asks for, its sessionizer has settings that the stage accepts, and a run of its executor is never stuck.
  pub build_pipeline-IsSound :
      (positive : F → Bool) (c valid : PipelineConfig F) (b : BuiltPipeline k)
      → parse_config positive c ≡ Result.returns valid
      → build_pipeline k valid ≡ Result.returns b
      → IsSound valid b
  build_pipeline-IsSound positive c valid b accepted built =
      let (in_order, settings, accepts) = ordered valid b built in
      let (some_worker, some_batch) = bounds_of positive c valid accepted in
      (
        in_order,
        accepts,
        λ run_id lines schedule s ran.
            run-CanFinish (executor_config k run_id b) lines schedule (rw settings some_worker)
              (rw settings some_batch) ran,
      )
