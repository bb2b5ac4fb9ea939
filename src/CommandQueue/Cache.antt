-- ===== src/CommandQueue/Cache.antt =====
-- cmd/scheduler/src/command_manager.rs: the cache of what was last sent to Discord, in
-- `update_guild_commands`.
use text.Mathlib.Text.{◌==◌}
use text.Mathlib.TextPositions.{eq_refl}
use text.Mathlib.TextEquality.{eq_iff}
use botloader.Prelude.{
  ℕ, ◌≡◌, refl, sym, ap, ◌∙◌, subst, Bool, true, false, Option, none, some, List, String,
  Bool-cases, inl, inr, arith, if◌then◌else◌, lookup, lookup-insert, ==_refl, ◌⊎◌,
}
use botloader.Commands.{TwilightCommand, Script, merge_script_commands}
use botloader.CommandQueue.{CommandManager, register, is_cached, update_guild_commands}

module _ (serialize : List TwilightCommand → String) (list : ℕ → Option (List Script))
    (guild_id : ℕ) (scripts : List Script) where
  same :
      {commands : List TwilightCommand}
      → (serialize commands == serialize (merge_script_commands scripts)) ≡ true
      → serialize commands ≡ serialize (merge_script_commands scripts)
  same {commands} h = (eq_iff (serialize commands) (serialize (merge_script_commands scripts))).0 h

  skipped :
      (accepted : Bool) (m : CommandManager)
      → list guild_id ≡ some scripts
      → is_cached (serialize (merge_script_commands scripts)) (lookup guild_id m.cached_commands)
        ≡ true
      → update_guild_commands serialize list accepted guild_id m ≡ some m
  unfolding update_guild_commands
  skipped accepted m e c = rw (e, update_guild_commands, c)

  updated :
      (accepted : Bool) (m : CommandManager)
      → list guild_id ≡ some scripts
      → is_cached (serialize (merge_script_commands scripts)) (lookup guild_id m.cached_commands)
        ≡ false
      → update_guild_commands serialize list accepted guild_id m
        ≡ some (register serialize accepted guild_id (merge_script_commands scripts) m)
  unfolding update_guild_commands
  updated accepted m e c = rw (e, update_guild_commands, c)

  register-cached :
      (accepted : Bool) (m : CommandManager)
      → lookup guild_id
          (register serialize accepted guild_id (merge_script_commands scripts) m).cached_commands
        ≡ some (serialize (merge_script_commands scripts))
  unfolding register
  register-cached accepted m =
      lookup-insert guild_id guild_id (serialize (merge_script_commands scripts)) m.cached_commands
      ∙ ap
          (λ b.
            if b
            then some (serialize (merge_script_commands scripts))
            else lookup guild_id m.cached_commands)
          (==_refl guild_id)

  hit :
      (o : Option String)
      → o ≡ some (serialize (merge_script_commands scripts))
      → is_cached (serialize (merge_script_commands scripts)) o ≡ true
  hit o e =
      subst (λ u. is_cached (serialize (merge_script_commands scripts)) u ≡ true) (sym e)
        (eq_refl (serialize (merge_script_commands scripts)))

  -- After an update of the commands of a guild, a further update while its scripts stay the same
  -- changes nothing and sends nothing, even if Discord refused the commands of the first.
  pub update_guild_commands-again :
      (first second : Bool) (m : CommandManager)
      → list guild_id ≡ some scripts
      → (m' : CommandManager) × (update_guild_commands serialize list first guild_id m ≡ some m')
        × (update_guild_commands serialize list second guild_id m' ≡ some m')
  update_guild_commands-again first second m e =
      elim (Bool-cases (
        is_cached (serialize (merge_script_commands scripts))
          (lookup guild_id m.cached_commands))) [
            | inl c ↦ (m, skipped first m e c, skipped second m e c)
            | inr c ↦ (
              register serialize first guild_id (merge_script_commands scripts) m,
              updated first m e c,
              skipped second (register serialize first guild_id (merge_script_commands scripts) m) e
                  (hit _ (register-cached first m)),
            )
          ]

  -- The cache has nothing of the guild, or the serialization of what Discord took last.
  abbrev pub IsFaithful : CommandManager → Type 0
  IsFaithful m =
      (lookup guild_id m.cached_commands ≡ none)
      ⊎ ((commands : List TwilightCommand) × (lookup guild_id m.registered ≡ some commands)
          × (lookup guild_id m.cached_commands ≡ some (serialize commands)))

  register-registered :
      (m : CommandManager)
      → lookup guild_id
          (register serialize true guild_id (merge_script_commands scripts) m).registered
        ≡ some (merge_script_commands scripts)
  unfolding register
  register-registered m =
      lookup-insert guild_id guild_id (merge_script_commands scripts) m.registered
      ∙ ap (λ b. if b then some (merge_script_commands scripts) else lookup guild_id m.registered)
          (==_refl guild_id)

  unchanged :
      (m : CommandManager)
      → list guild_id ≡ some scripts
      → is_cached (serialize (merge_script_commands scripts)) (lookup guild_id m.cached_commands)
        ≡ true
      → IsFaithful m
      → (m' : CommandManager) × (commands : List TwilightCommand) × (update_guild_commands serialize
            list true guild_id m
          ≡ some m')
        × (lookup guild_id m'.registered ≡ some commands)
        × (serialize commands ≡ serialize (merge_script_commands scripts))
        × IsFaithful m'
  unchanged m e c (inl n) =
      ground
        (arith, subst (λ o. is_cached (serialize (merge_script_commands scripts)) o ≡ true) n c)
  unchanged m e c (inr (commands, r, k)) = (
    m,
    commands,
    skipped true m e c,
    r,
    same (subst (λ o. is_cached (serialize (merge_script_commands scripts)) o ≡ true) k c),
    inr (commands, r, k),
  )

  -- Where the cache is faithful and Discord takes the commands, an update leaves Discord with commands
  -- that are the merged commands of the guild's scripts up to their serialization, sent or not, and
  -- the cache stays faithful.
  pub update_guild_commands-registered :
      (m : CommandManager)
      → list guild_id ≡ some scripts
      → IsFaithful m
      → (m' : CommandManager) × (commands : List TwilightCommand) × (update_guild_commands serialize
            list true guild_id m
          ≡ some m')
        × (lookup guild_id m'.registered ≡ some commands)
        × (serialize commands ≡ serialize (merge_script_commands scripts))
        × IsFaithful m'
  update_guild_commands-registered m e f =
      elim (Bool-cases (
        is_cached (serialize (merge_script_commands scripts))
          (lookup guild_id m.cached_commands))) [
            | inr c ↦ (
              register serialize true guild_id (merge_script_commands scripts) m,
              merge_script_commands scripts,
              updated true m e c,
              register-registered m,
              refl,
              inr (merge_script_commands scripts, register-registered m, register-cached true m),
            )
            | inl c ↦ unchanged m e c f
          ]
