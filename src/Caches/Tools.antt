-- ===== src/Caches/Tools.antt =====
-- `ToolResultCache` of services/agent_runtime/src/voyagent_agent_runtime/tool_cache.py. The hash of an
-- input is a parameter.
use voyagent.Prelude.{
  ℕ, ◌+◌, Bool, Option, none, some, List, [], ◌∷◌, if◌then◌else◌, leb, length, map, pair_key,
}
use voyagent.Prelude.Text.{Text, codes, contains, text_key}
use voyagent.Prelude.Dict.{Dict, lookup, insert, erase}

abbrev pub cacheable_tools : List Text
cacheable_tools = map codes (
    "search_flights" ∷ "search_hotels" ∷ "check_hotel_rate" ∷ "list_ledger_accounts"
    ∷ "lookup_passenger" ∷ [])

abbrev pub default_ttl_seconds : ℕ
default_ttl_seconds = 300

abbrev pub per_tool_ttl : Dict Text ℕ
per_tool_ttl = (codes "check_hotel_rate", 120) ∷ (codes "list_ledger_accounts", 600) ∷ []

-- A tenant, a tool and the hash of an input.
abbrev pub CacheKey : Type 0
CacheKey = Text × (Text × Text)

pub record ToolResultCache (V : Type 0) : Type 0 where
  pub default_ttl : ℕ
  pub store : Dict CacheKey (ℕ × V)
  pub hits : ℕ
  pub misses : ℕ

unfoldable pub is_cacheable : Text → Bool
is_cacheable tool_name = contains tool_name cacheable_tools

unfoldable pub ttl_for : {V : Type 0} → ToolResultCache V → Text → ℕ
ttl_for c tool_name = elim (lookup tool_name per_tool_ttl) [ none ↦ c.default_ttl | some ttl ↦ ttl ]

module _ {V : Type 0} where
  unfoldable pub get : ℕ → Text → Text → Text → ToolResultCache V → Option V × ToolResultCache V
  get now tenant_id tool_name hash c =
      if is_cacheable tool_name
      then (elim (lookup (tenant_id, (tool_name, hash)) c.store) [
        | none ↦ (none, record c { misses = c.misses + 1 })
        | some entry ↦
            if leb entry.0 now
            then (
              none,
              record c {
                store = erase (tenant_id, (tool_name, hash)) c.store;
                misses = c.misses + 1;
              },
            )
            else (some entry.1, record c { hits = c.hits + 1 })
      ])
      else (none, c)

  unfoldable pub put : ℕ → Text → Text → Text → V → ToolResultCache V → ToolResultCache V
  put now tenant_id tool_name hash value c =
      if is_cacheable tool_name
      then record c {
        store = insert (tenant_id, (tool_name, hash)) (now + ttl_for c tool_name, value) c.store;
      }
      else c

  -- Hits, misses and entries.
  unfoldable pub stats : ToolResultCache V → ℕ × ℕ × ℕ
  stats c = (c.hits, c.misses, length c.store)

  unfoldable pub clear : ToolResultCache V → ToolResultCache V
  clear c = record c { store = []; hits = 0; misses = 0 }
