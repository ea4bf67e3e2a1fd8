-- ===== src/Routing.antt =====
-- xibi/router.py: from a role to the clients of its fallback chain, and a call that walks them. The
-- configuration is one that has a provider's entry for each role; what a provider answers, and whether
-- it can be reached, are arguments. Pauses between attempts, log lines and token counts are left out.
pub mod Chains
pub mod Walking
pub mod Skipping
mod Tests
use xibi.Base.{
  ℕ, zero, suc, Bool, true, false, not, ◌&&◌, Option, none, some, String, List, [], ◌∷◌, ◌==◌,
  if◌then◌else◌, Dict, lookup, member, length, is_some, append_text, Store, any,
}
use mathlib.Core.Bool.{◌||◌}
use xibi.Errors.{
  ErrorCategory, timeout, tool_not_found, parse_failure, provider_down, validation, circuit_open,
  permission, precondition_missing, ambiguous_calendar, unknown, XibiError,
}
use xibi.CircuitBreaker.{
  FailureType, persistent, transient, Config, Table, is_open, record_success, record_failure,
}

pub record RoleConfig : Type 0 where
  pub provider : String
  pub model : String
  pub fallback : Option String

-- The efforts of each specialty.
abbrev Models : Type 0
Models = Dict (Dict RoleConfig)

abbrev resolved : Models → String → String
resolved models specialty = if is_some (lookup specialty models) then specialty else "text"

-- A text that is empty counts as none.
abbrev truthy : Option String → Option String
truthy none = none
truthy (some s) = if s == "" then none else some s

abbrev pub next_role : Dict RoleConfig → List String → String → Option RoleConfig
next_role efforts seen effort = if member effort seen then none else lookup effort efforts

-- The loop of `_resolve_role_chain`, on fuel for its rounds.
unfoldable pub follow :
    ℕ → Dict RoleConfig → List String → Option String → List (String × RoleConfig)
follow zero efforts seen current = []
follow (suc fuel) efforts seen none = []
follow (suc fuel) efforts seen (some effort) = elim (next_role efforts seen effort) [
  | none ↦ []
  | some role ↦ (effort, role) ∷ follow fuel efforts (effort ∷ seen) (truthy role.fallback)
]

abbrev first_entry : Dict RoleConfig → List (String × RoleConfig)
first_entry [] = []
first_entry (e ∷ d) = e ∷ []

abbrev chain_from : Dict RoleConfig → String → List (String × RoleConfig)
chain_from efforts current =
    if is_some (lookup current efforts)
    then follow (suc (length efforts)) efforts [] (truthy (some current))
    else first_entry efforts

abbrev start_effort : Dict RoleConfig → String → String
start_effort efforts effort = if is_some (lookup effort efforts) then effort else "think"

-- `_resolve_role_chain`; `none` is the `KeyError` of a configuration without texts.
resolve_role_chain : Models → String → String → Option (List (String × RoleConfig))
unfolding follow
resolve_role_chain models specialty effort = elim (lookup (resolved models specialty) models) [
  | none ↦ none
  | some efforts ↦ some (chain_from efforts (start_effort efforts effort))
]

-- What a provider says of itself: nothing, an error, or the names of its models, and then whether a
-- model that is not among them can be asked for.
pub data Probe : Type 0 where
  unreachable refused : Probe
  listing : List String → Bool → Probe

abbrev is_reachable : Probe → Bool
is_reachable unreachable = false
is_reachable _ = true

-- The surroundings: the answers of providers, the text before a last `:latest` and whether a text has
-- a colon, which keys are set, and which packages are there.
pub record Network : Type 0 where
  pub probe : String → Probe
  pub has_tag : String → Bool
  pub without_latest : String → Option String
  pub has_key : String → Bool
  pub has_package : String → Bool

abbrev base_listed : List String → Option String → Bool
base_listed names none = false
base_listed names (some base) = member base names

abbrev is_listed : Network → String → List String → Bool
is_listed w model names =
    member model names
    || ((not (w.has_tag model) && member (append_text model ":latest") names)
        || base_listed names (w.without_latest model))

abbrev ollama_health : Network → String → Probe → Bool
ollama_health w model unreachable = false
ollama_health w model refused = false
ollama_health w model (listing names warms_up) = if is_listed w model names then true else warms_up

-- `_check_provider_health`
check_provider_health : Network → RoleConfig → Bool
check_provider_health w role =
    if role.provider == "ollama"
    then ollama_health w role.model (w.probe "ollama")
    else if role.provider == "gemini"
    then is_reachable (w.probe "gemini")
    else true

-- Making a client: it is there, there is none, or the constructor raises.
pub data Construction : Type 0 where
  built absent raising : Construction

abbrev construct : Network → String → Construction
construct w provider =
    if provider == "ollama"
    then built
    else if provider == "gemini"
    then if w.has_key provider then (if w.has_package provider then built else raising) else absent
    else if (provider == "openai") || (provider == "anthropic")
    then if w.has_package provider && w.has_key provider then built else raising
    else if provider == "groq"
    then raising
    else absent

-- The breakers by provider, each with its own row.
abbrev pub Breakers : Type 0
Breakers = String → Store Table

abbrev put : String → Store Table → Breakers → Breakers
put provider s breakers = λ p. if p == provider then s else breakers p

-- A client: its role and its provider.
pub record Client : Type 0 where
  pub role : String
  pub provider : String

pub data Built : Type 0 where
  client : Client → Built
  unavailable failed : Built

abbrev of_construction : String → String → Construction → Built
of_construction name provider built = client (record { role = name; provider = provider })
of_construction name provider absent = unavailable
of_construction name provider raising = failed

abbrev unless_open : Network → String → RoleConfig → Bool → Built
unless_open w name role is_blocked =
    if is_blocked
    then unavailable
    else if check_provider_health w role
    then of_construction name role.provider (construct w role.provider)
    else unavailable

-- `_build_role_client`
unfoldable pub build_role_client :
    Network → Config → ℕ → String × RoleConfig → Breakers → Built × Breakers
unfolding check_provider_health
build_role_client w cfg now (name, role) breakers =
    let (is_blocked, s) = is_open cfg now (breakers role.provider) in
    (unless_open w name role is_blocked, put role.provider s breakers)

abbrev with_first : Client → Option (List Client) → Option (List Client)
with_first c none = none
with_first c (some cs) = some (c ∷ cs)

abbrev joined : Built → Breakers → Option (List Client) × Breakers → Option (List Client) × Breakers
joined failed breakers rest = (none, breakers)
joined unavailable breakers rest = rest
joined (client c) breakers (clients, breakers') = (with_first c clients, breakers')

-- The clients of the roles that are available; `none` is an exception of a constructor.
abbrev build_chain :
    Network → Config → ℕ → List (String × RoleConfig) → Breakers → Option (List Client) × Breakers
build_chain w cfg now [] breakers = (some [], breakers)
build_chain w cfg now (role ∷ roles) breakers =
    let (b, breakers') = build_role_client w cfg now role breakers in
    joined b breakers' (build_chain w cfg now roles breakers')

pub data Model : Type 0 where
  chained : List Client → Model
  no_model_available key_error constructor_error : Model

abbrev of_chain : Option (List Client) → Model
of_chain none = constructor_error
of_chain (some []) = no_model_available
of_chain (some (c ∷ cs)) = chained (c ∷ cs)

abbrev get_from :
    Network → Config → ℕ → Option (List (String × RoleConfig)) → Breakers → Model × Breakers
get_from w cfg now none breakers = (key_error, breakers)
get_from w cfg now (some []) breakers = (no_model_available, breakers)
get_from w cfg now (some (role ∷ roles)) breakers =
    let (clients, breakers') = build_chain w cfg now (role ∷ roles) breakers in
    (of_chain clients, breakers')

get_model : Network → Config → ℕ → Models → String → String → Breakers → Model × Breakers
unfolding build_role_client resolve_role_chain
get_model w cfg now models specialty effort breakers =
    get_from w cfg now (resolve_role_chain models specialty effort) breakers

-- What a client answers: a result, an error of the program, or another exception.
pub data Reply (A : Type 0) : Type 0 where
  answered : A → Reply A
  raises : XibiError → Reply A
  breaks : Reply A

abbrev pub failure_type : XibiError → FailureType
failure_type e = elim e.category [
  | provider_down ↦ persistent
  | timeout ↦ persistent
  | _ ↦ transient
]

-- `BreakerWrappedClient.generate` and its companions: what a call does to the provider's breaker.
unfoldable pub record_call : {A : Type 0} → Config → ℕ → Reply A → Store Table → Store Table
record_call cfg now (answered a) s = (record_success cfg s).1
record_call cfg now (raises e) s = (record_failure cfg now (failure_type e) s).1
record_call cfg now breaks s = (record_failure cfg now persistent s).1

abbrev pub charge : {A : Type 0} → Config → ℕ → Client → Reply A → Breakers → Breakers
charge cfg now c reply breakers =
    put c.provider (record_call cfg now reply (breakers c.provider)) breakers

-- `_should_walk`
abbrev pub should_walk : XibiError → Bool
should_walk e = elim e.category [
  | provider_down ↦ true
  | timeout ↦ true
  | parse_failure ↦ true
  | _ ↦ false
]

pub data Walked (A : Type 0) : Type 0 where
  result : A → Walked A
  raised : XibiError → Walked A
  broken : Walked A
  all_failed : ErrorCategory → Walked A

abbrev pub category_after : {A : Type 0} → ErrorCategory → Reply A → ErrorCategory
category_after last (raises e) = e.category
category_after last _ = last

abbrev pub decided : {A : Type 0} → Reply A → Breakers → Walked A × Breakers → Walked A × Breakers
decided (answered a) charged rest = (result a, charged)
decided (raises e) charged rest = if should_walk e then rest else (raised e, charged)
decided breaks charged rest = (broken, charged)

-- The loop of `_walk`, with the category of the last error; the last error's text is made of those
-- of all attempts.
unfoldable pub walk_from :
    {A : Type 0}
    → Config
    → ℕ
    → (Client → Reply A)
    → ErrorCategory
    → List Client
    → Breakers
    → Walked A × Breakers
unfolding record_call
walk_from cfg now ask last [] breakers = (all_failed last, breakers)
walk_from cfg now ask last (c ∷ cs) breakers =
    let charged = charge cfg now c (ask c) breakers in
    decided (ask c) charged (walk_from cfg now ask (category_after last (ask c)) cs charged)

-- `ChainedModelClient._walk`
unfoldable pub walk :
    {A : Type 0} → Config → ℕ → (Client → Reply A) → List Client → Breakers → Walked A × Breakers
unfolding walk_from
walk cfg now ask clients breakers = walk_from cfg now ask provider_down clients breakers
