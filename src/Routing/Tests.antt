-- ===== src/Routing/Tests.antt =====
-- Concrete chains.
use xibi.Base.{
  ◌≡◌, refl, true, false, none, some, String, [], ◌∷◌, ◌==◌, arith, Dict, length, if◌then◌else◌,
  suc, List,
}
use xibi.Errors.{XibiError, provider_down}
use xibi.CircuitBreaker.{Config, initial_row}
use xibi.CircuitBreaker.Machine.{Represents, healthy}
use xibi.Routing.{
  RoleConfig, Network, unreachable, Client, Breakers, Reply, answered, raises, unavailable, follow,
  walk, build_role_client,
}
use xibi.Routing.Chains.{Follows, follow_is_complete}
use xibi.Routing.Walking.{outcome, asked, all_asked, walk_decides}
use xibi.Routing.Skipping.{Attempt, calls, failing_provider_is_skipped}

-- Two efforts that fall back to each other.
abbrev efforts : Dict RoleConfig
efforts =
    ("fast", record { provider = "ollama"; model = "qwen"; fallback = some "think" })
    ∷ ("think", record { provider = "gemini"; model = "flash"; fallback = some "fast" })
    ∷ []

follow_is_complete_example :
    Follows efforts [] (some "fast") (follow (suc (length efforts)) efforts [] (some "fast"))
follow_is_complete_example = follow_is_complete efforts (some "fast")

both : follow 3 efforts [] (some "fast") ≡ efforts
unfolding follow
both = refl

abbrev fast : Client
fast = record { role = "fast"; provider = "ollama" }

abbrev slow : Client
slow = record { role = "think"; provider = "gemini" }

abbrev is_down : XibiError
is_down = record {
  category = provider_down;
  message = "connection refused";
  component = "router";
  detail = "";
  retryable = true;
}

-- The first provider is down, the second answers.
abbrev ask : Client → Reply String
ask c = if c.provider == "ollama" then raises is_down else answered "hello"

abbrev config : Config
config = record { failure_threshold = 3; recovery_timeout_secs = 60; success_threshold = 2 }

abbrev fresh : Breakers
fresh p = record { table = some initial_row; faults = [] }

walk_decides_example : walk config 100 ask (fast ∷ slow ∷ []) fresh ≡ (
  outcome config 100 ask (ask slow),
  asked config 100 ask slow (all_asked config 100 ask (fast ∷ []) fresh),
)
walk_decides_example = walk_decides config 100 ask (fast ∷ []) [] slow fresh refl refl

fresh-Represents : Represents config (fresh "ollama") (healthy 0)
fresh-Represents = record { reliable = refl; row = (refl, refl, refl) }

abbrev offline : Network
offline = record {
  probe = λ p. unreachable;
  has_tag = λ m. false;
  without_latest = λ m. none;
  has_key = λ p. true;
  has_package = λ p. true;
}

abbrev attempts : List (Attempt String)
attempts =
    record { at = 100; ask = ask }
    ∷ record { at = 120; ask = ask }
    ∷ record { at = 150; ask = ask }
    ∷ []

failing_provider_is_skipped_example :
    (build_role_client offline config 200
      ("fast", record { provider = "ollama"; model = "qwen"; fallback = none })
      (calls config fast (slow ∷ []) refl attempts fresh)).0
    ≡ unavailable
failing_provider_is_skipped_example =
    failing_provider_is_skipped config fast (slow ∷ []) refl offline "fast"
      (record { provider = "ollama"; model = "qwen"; fallback = none }) 100 200 attempts fresh refl
      (
        (omega arith),
        (is_down, refl, refl),
        ((omega arith), (is_down, refl, refl), ((omega arith), (is_down, refl, refl), tt)),
      )
      (omega arith) (omega arith) (omega arith) fresh-Represents
