-- ===== src/Http/JobController/Asked.antt =====
-- The job that a request asks for, field by field.
use arcana_cloud_go.Base.{
  ℕ, zero, suc, ◌+◌, ◌*◌, ◌<◌, ◌^◌, ◌%◌, ◌==◌, ltb, ◌≡◌, refl, ap, sym, ◌∙◌, String, true, false,
  Option, none, some, ◌⊎◌, List, [], ◌∷◌, ◌++◌, str_eq, str_eq_iff, if◌then◌else◌, Bool-cases, inl,
  inr, arith,
}
use arcana_cloud_go.Base.Int.{ℤ, pos, negsuc}
use arcana_cloud_go.Jobs.Job.{
  second, minute, with_delay, with_scheduled_at, Priority, low, normal, high, critical, JobPayload,
  JobOption, pending, priority_string, default_retry_policy, apply_option, apply_options,
  new_job_payload,
}
use arcana_cloud_go.Jobs.RedisQueue.{is_empty}
use arcana_cloud_go.Http.JobController.{
  EnqueueJobRequest, JobResponse, Texts, priority_of, delay_option, key_option, tags_option,
  schedule_options, options_of, to_job_response,
}

-- Three names have a priority of their own.
abbrev named : List (String × Priority)
named = ("low", low) ∷ ("high", high) ∷ ("critical", critical) ∷ []

abbrev named_priority : String → List (String × Priority) → Priority
named_priority text [] = normal
named_priority text ((name, p) ∷ l) = if str_eq text name then p else named_priority text l

abbrev shown_priority : String → List (String × Priority) → String
shown_priority text [] = "normal"
shown_priority text ((name, p) ∷ l) = if str_eq text name then text else shown_priority text l

abbrev after_delay : ℕ → ℤ → Option ℕ
after_delay now (pos zero) = none
after_delay now (pos (suc n)) = some (now + suc n * second)
after_delay now (negsuc n) = none

-- The time given, or else so many seconds from now, or no time.
abbrev due : (String → Option ℕ) → ℕ → EnqueueJobRequest → Option ℕ
due parse_time now req =
    if is_empty req.scheduled_at
    then after_delay now req.delay_seconds
    else parse_time req.scheduled_at

module _ (texts : Texts) (now : ℕ) (uuid : String) (req : EnqueueJobRequest) where
  abbrev pub asked_job : String → JobPayload
  asked_job text = record {
    id = uuid;
    job_type = req.job_type;
    payload = text;
    priority = named_priority (texts.to_lower req.priority) named;
    status = pending;
    attempts = 0;
    max_retries = 3;
    retry_policy = default_retry_policy;
    timeout = 5 * minute;
    scheduled_at = due texts.parse_time now req;
    created_at = now;
    started_at = none;
    completed_at = none;
    last_error = "";
    correlation_id = "";
    unique_key = req.unique_key;
    tags = req.tags;
  }

  abbrev pub asked_response : JobResponse
  asked_response = record {
    id = uuid;
    job_type = req.job_type;
    priority = shown_priority (texts.to_lower req.priority) named;
    status = pending;
    attempts = 0;
    max_retries = 3;
    scheduled_at = due texts.parse_time now req;
    created_at = now;
    started_at = none;
    completed_at = none;
    last_error = "";
    correlation_id = "";
    tags = req.tags;
  }

-- The time given is read, if there is one, and a delay in nanoseconds fits.
abbrev pub Timely : Texts → EnqueueJobRequest → Type 0
Timely texts req =
    ((is_empty req.scheduled_at ≡ true) ⊎ ((t : ℕ) × (texts.parse_time req.scheduled_at ≡ some t)))
    × ((n : ℕ) → req.delay_seconds ≡ pos n → n * second < 2 ^ 63)

apply_options-append :
    (now : ℕ) (a b : List JobOption) (j : JobPayload)
    → apply_options now (a ++ b) j ≡ apply_options now b (apply_options now a j)
unfolding apply_options
apply_options-append now [] b j = refl
apply_options-append now (o ∷ a) b j = apply_options-append now a b (apply_option now o j)

key_lem :
    (now : ℕ) (key : String) (j : JobPayload)
    → apply_options now (key_option key) (record j { unique_key = "" })
      ≡ record j { unique_key = key }
unfolding apply_options key_option
key_lem now key j = elim (Bool-cases (is_empty key)) [
  | inl bare ↦ rw (bare, (str_eq_iff key "").0 bare) refl
  | inr given ↦ rw given refl
]

tags_lem :
    (now : ℕ) (tags : List String) (j : JobPayload)
    → apply_options now (tags_option tags) (record j { tags = [] }) ≡ record j { tags = tags }
unfolding apply_options tags_option
tags_lem now [] j = refl
tags_lem now (t ∷ tags) j = refl

delay_option-zero : (now : ℕ) → delay_option now (pos zero) ≡ []
unfolding delay_option
delay_option-zero now = refl

delay_option-negsuc : (now n : ℕ) → delay_option now (negsuc n) ≡ []
unfolding delay_option
delay_option-negsuc now n = refl

delay_option_lem :
    (now n : ℕ)
    → suc n * second < 2 ^ 63
    → delay_option now (pos (suc n)) ≡ with_delay (suc n * second) ∷ []
unfolding delay_option
delay_option_lem now n fits =
    let unwrapped : (suc n * second) % 2 ^ 64 ≡ suc n * second = ground arith in
    let small : ltb (suc n * second) (2 ^ 63) ≡ true = ground arith in
    let some_delay : (suc n == 0) ≡ false = ground arith in rw (some_delay, unwrapped, small) refl

delay_lem :
    (now : ℕ) (delay : ℤ) (j : JobPayload)
    → ((n : ℕ) → delay ≡ pos n → n * second < 2 ^ 63)
    → apply_options now (delay_option now delay) (record j { scheduled_at = none })
      ≡ record j { scheduled_at = after_delay now delay }
unfolding apply_options apply_option
delay_lem now (pos zero) j fits = rw (delay_option-zero now) refl
delay_lem now (pos (suc n)) j fits = rw (delay_option_lem now n (fits (suc n) refl)) refl
delay_lem now (negsuc n) j fits = rw (delay_option-negsuc now n) refl

priority_lem : (text : String) → priority_of text ≡ named_priority text named
unfolding priority_of
priority_lem text = refl

shown_lem :
    (text : String) → priority_string (named_priority text named) ≡ shown_priority text named
unfolding priority_string
shown_lem text = elim (Bool-cases (str_eq text "low")) [
  | inl is ↦ rw is (sym ((str_eq_iff text "low").0 is))
  | inr not_low ↦ elim (Bool-cases (str_eq text "high")) [
    | inl is ↦ rw (not_low, is) (sym ((str_eq_iff text "high").0 is))
    | inr not_high ↦ elim (Bool-cases (str_eq text "critical")) [
      | inl is ↦ rw (not_low, not_high, is) (sym ((str_eq_iff text "critical").0 is))
      | inr other ↦ rw (not_low, not_high, other) refl
    ]
  ]
]

scheduled_lem :
    (now t : ℕ) (j : JobPayload)
    → apply_options now (with_scheduled_at t ∷ []) (record j { scheduled_at = none })
      ≡ record j { scheduled_at = some t }
unfolding apply_options
scheduled_lem now t j = refl

schedule_lem :
    (texts : Texts) (now : ℕ) (req : EnqueueJobRequest) (j : JobPayload)
    → Timely texts req
    → (opts : List JobOption) × (schedule_options texts.parse_time now req ≡ some opts)
      × (apply_options now opts (record j { scheduled_at = none })
          ≡ record j { scheduled_at = due texts.parse_time now req })
unfolding schedule_options
schedule_lem texts now req j (inl bare, fits) = (
  delay_option now req.delay_seconds,
  rw bare refl,
  rw bare (delay_lem now req.delay_seconds j fits),
)
schedule_lem texts now req j (inr (t, given), fits) =
    elim (Bool-cases (is_empty req.scheduled_at)) [
      | inl bare ↦ (
        delay_option now req.delay_seconds,
        rw bare refl,
        rw bare (delay_lem now req.delay_seconds j fits),
      )
      | inr dated ↦ (
        with_scheduled_at t ∷ [],
        rw (dated, given) refl,
        rw (dated, given) (scheduled_lem now t j),
      )
    ]

-- The options that the controller makes of a request give the job asked for, field by field.
pub asked_lem :
    (texts : Texts) (now : ℕ) (uuid : String) (req : EnqueueJobRequest) (text : String)
    → Timely texts req
    → (opts : List JobOption) × (schedule_options texts.parse_time now req ≡ some opts)
      × (new_job_payload now uuid req.job_type text (options_of texts req opts)
          ≡ asked_job texts now uuid req text)
unfolding new_job_payload apply_options apply_option options_of priority_of
asked_lem texts now uuid req text timely =
    let start : JobPayload = record (asked_job texts now uuid req text) {
      scheduled_at = none;
      unique_key = "";
      tags = [];
    } in
    let (opts, read, scheduled) = schedule_lem texts now req start timely in
    let keyed : JobPayload = record start { scheduled_at = due texts.parse_time now req } in
    let tagged : JobPayload = record keyed { unique_key = req.unique_key } in
    let keys = key_option req.unique_key in
    let tags = tags_option req.tags in
    (
      opts,
      read,
      apply_options-append now (opts ++ keys) tags start
          ∙ ap (apply_options now tags) (apply_options-append now opts keys start)
          ∙ ap (λ j. apply_options now tags (apply_options now keys j)) scheduled
          ∙ ap (apply_options now tags) (key_lem now req.unique_key keyed)
          ∙ tags_lem now req.tags tagged,
    )

pub response_lem :
    (texts : Texts) (now : ℕ) (uuid : String) (req : EnqueueJobRequest) (text : String)
    → to_job_response (asked_job texts now uuid req text) ≡ asked_response texts now uuid req
unfolding to_job_response
response_lem texts now uuid req text = rw (shown_lem (texts.to_lower req.priority)) refl
