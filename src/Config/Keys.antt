-- ===== src/Config/Keys.antt =====
-- How lease keys relate.
use election_agent.Prelude.{String, ◌<>◌, ◌≡◌, refl, sym, ◌≢◌, true, arith, eq_iff}
use text.Mathlib.TextLemmas.{append_assoc, append_cancel_left, append-eq-nil_iff}
use mathlib.Core.Path.{subst}
use text.Mathlib.TextPositions.{starts_with-append}
use text.Mathlib.Text.{starts_with}
use election_agent.Config.{Config, kind_or_default, lease_key, lease_kind_prefix}

-- A lease's key is its kind's prefix followed by its name and starts with that prefix, and an empty
-- kind is the kind "default".
pub lease_key-prefix :
    (cfg : Config) (lease kind : String)
    → (lease_key cfg lease kind ≡ lease_kind_prefix cfg kind <> lease)
      × (starts_with (lease_key cfg lease kind) (lease_kind_prefix cfg kind) ≡ true)
      × (lease_key cfg lease "" ≡ lease_key cfg lease "default")
unfolding lease_key lease_kind_prefix
lease_key-prefix cfg lease kind =
    let p = cfg.key_prefix <> "/lease/" <> kind_or_default kind <> "/" in
    let e : p <> lease ≡ cfg.key_prefix <> "/lease/" <> kind_or_default kind <> "/" <> lease =
      simp append_assoc in
    (sym e, subst (λ k. starts_with k p ≡ true) e (starts_with-append p lease), refl)

pub lease_key_injective :
    (cfg : Config) (a b kind : String) → lease_key cfg a kind ≡ lease_key cfg b kind → a ≡ b
unfolding lease_key
lease_key_injective cfg a b kind h = append_cancel_left "/" a b (
    append_cancel_left (kind_or_default kind) _ _
      (append_cancel_left "/lease/" _ _ (append_cancel_left cfg.key_prefix _ _ h)))

kind_or_default_self : (kind : String) → kind ≢ "" → kind_or_default kind ≡ kind
kind_or_default_self kind h = ground (arith, eq_iff kind "")

slash_not_empty : (a b : String) → a <> "/" <> b ≢ ""
slash_not_empty a b h =
    ground (arith, eq_iff "/" "", (append-eq-nil_iff.0 ((append-eq-nil_iff.0 h).1)).0)

-- The slash is not escaped: the key of a name b/c under the kind a, which is not empty, is the key
-- of the name c under the kind a/b.
pub lease_key_slash :
    (cfg : Config) (a b c : String)
    → a ≢ ""
    → lease_key cfg (b <> "/" <> c) a ≡ lease_key cfg c (a <> "/" <> b)
unfolding lease_key
lease_key_slash cfg a b c h =
    rw (kind_or_default_self a h, kind_or_default_self _ (slash_not_empty a b)) (simp append_assoc)
