-- ===== src/GuildHandler/Examples.antt =====
-- The session of a guild before the tier is known.
use botloader.Prelude.{◌≡◌, none, some, List}
use botloader.WorkerPool.{PremiumSlotTier}
use botloader.VmSession.{new, unknown, tier_option}
use botloader.GuildHandler.{fetch_premium_tier}
use botloader.GuildHandler.Tiers.{IsHighest, fetch_premium_tier-IsHighest}

fetch_premium_tier-IsHighest_example :
    ((slots : List PremiumSlotTier)
      → IsHighest slots
          (tier_option (fetch_premium_tier (some slots) (new 7 unknown)).premium_tier))
    × (tier_option (fetch_premium_tier none (new 7 unknown)).premium_tier ≡ none)
fetch_premium_tier-IsHighest_example = fetch_premium_tier-IsHighest (new 7 unknown)
