-- ===== src/GuildHandler/Tiers.antt =====
-- `fetch_premium_tier` of cmd/scheduler/src/guild_handler.rs: which tier a guild gets.
use botloader.Prelude.{
  ◌≤◌, ◌≡◌, refl, ◌∙◌, Option, none, some, List, [], ◌∷◌, All, arith, ◌⊎◌, inl, inr,
}
use botloader.WorkerPool.{PremiumSlotTier, lite, premium, premium_tier_index}
use botloader.VmSession.{VmSession, tier_option}
use botloader.GuildHandler.{is_higher_than, highest_tier, fetch_premium_tier}

-- Some slot of the list has the tier.
abbrev pub HasTier : PremiumSlotTier → List PremiumSlotTier → Type 0
HasTier tier [] = ⊥
HasTier tier (t ∷ ts) = (tier ≡ t) ⊎ HasTier tier ts

-- No slot stands higher than the tier, and it is that of a slot, or there is no slot.
abbrev pub IsHighest : List PremiumSlotTier → Option PremiumSlotTier → Type 0
IsHighest slots none = slots ≡ []
IsHighest slots (some tier) =
    HasTier tier slots
    × All (λ t. premium_tier_index (some t) ≤ premium_tier_index (some tier)) slots

-- The same for the loop that starts with a tier.
Improves : PremiumSlotTier → List PremiumSlotTier → Option PremiumSlotTier → Type 0
Improves current slots none = ⊥
Improves current slots (some tier) =
    ((tier ≡ current) ⊎ HasTier tier slots)
    × (premium_tier_index (some current) ≤ premium_tier_index (some tier))
    × All (λ t. premium_tier_index (some t) ≤ premium_tier_index (some tier)) slots

among :
    (current next t : PremiumSlotTier) (slots : List PremiumSlotTier) (tier : PremiumSlotTier)
    → ((next ≡ current) ⊎ (next ≡ t))
    → ((tier ≡ next) ⊎ HasTier tier slots)
    → ((tier ≡ current) ⊎ HasTier tier (t ∷ slots))
among current next t slots tier from (inr m) = inr (inr m)
among current next t slots tier (inl f) (inl e) = inl (e ∙ f)
among current next t slots tier (inr f) (inl e) = inr (inl (e ∙ f))

keep_going :
    (current next t : PremiumSlotTier) (slots : List PremiumSlotTier) (r : Option PremiumSlotTier)
    → ((next ≡ current) ⊎ (next ≡ t))
    → (premium_tier_index (some current) ≤ premium_tier_index (some next))
    → (premium_tier_index (some t) ≤ premium_tier_index (some next))
    → Improves next slots r
    → Improves current (t ∷ slots) r
unfolding Improves
keep_going current next t slots none from a b h = absurd h
keep_going current next t slots (some tier) from a b (m, c, rest) =
    (among current next t slots tier from m, omega (arith, a, c), (omega (arith, b, c), rest))

highest_tier-Improves :
    (current : PremiumSlotTier) (slots : List PremiumSlotTier)
    → Improves current slots (highest_tier (some current) slots)
unfolding highest_tier Improves is_higher_than premium_tier_index
highest_tier-Improves current [] = (inl refl, omega arith, tt)
highest_tier-Improves lite (lite ∷ ts) =
    keep_going lite lite lite ts (highest_tier (some lite) ts) (inl refl) (omega arith)
      (omega arith) (highest_tier-Improves lite ts)
highest_tier-Improves lite (premium ∷ ts) =
    keep_going lite premium premium ts (highest_tier (some premium) ts) (inr refl) (omega arith)
      (omega arith) (highest_tier-Improves premium ts)
highest_tier-Improves premium (lite ∷ ts) =
    keep_going premium premium lite ts (highest_tier (some premium) ts) (inl refl) (omega arith)
      (omega arith) (highest_tier-Improves premium ts)
highest_tier-Improves premium (premium ∷ ts) =
    keep_going premium premium premium ts (highest_tier (some premium) ts) (inl refl) (omega arith)
      (omega arith) (highest_tier-Improves premium ts)

of_Improves :
    (t : PremiumSlotTier) (ts : List PremiumSlotTier) (r : Option PremiumSlotTier)
    → Improves t ts r
    → IsHighest (t ∷ ts) r
unfolding Improves
of_Improves t ts none h = absurd h
of_Improves t ts (some tier) (m, c, rest) = (m, (c, rest))

highest_tier-IsHighest : (slots : List PremiumSlotTier) → IsHighest slots (highest_tier none slots)
unfolding highest_tier
highest_tier-IsHighest [] = refl
highest_tier-IsHighest (t ∷ ts) =
    of_Improves t ts (highest_tier (some t) ts) (highest_tier-Improves t ts)

-- The tier that a session uses for its guild is the highest of the guild's slots, in the order of
-- the pool's tiers, and none if the guild has no slot or the store did not answer.
pub fetch_premium_tier-IsHighest :
    (s : VmSession)
    → ((slots : List PremiumSlotTier)
        → IsHighest slots (tier_option (fetch_premium_tier (some slots) s).premium_tier))
      × (tier_option (fetch_premium_tier none s).premium_tier ≡ none)
unfolding fetch_premium_tier tier_option
fetch_premium_tier-IsHighest s = (highest_tier-IsHighest, refl)
