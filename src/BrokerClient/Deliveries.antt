-- ===== src/BrokerClient/Deliveries.antt =====
-- `BrokerConn::run` of cmd/scheduler/src/broker_client.rs: what the scheduler is given of the messages that arrive
-- over a connection, and which of them are acknowledged.
use botloader.Prelude.{
  ◌≡◌, refl, ap, subst, sym, Bool, true, false, some, List, [], ◌∷◌, ◌++◌, map, ◌⊎◌, arith,
  Bool-cases, Option-cases, inl, inr,
}
use botloader.DiscordBroker.{BrokerEvent}
use botloader.GuildScheduler.{SchedulerCommand}
use botloader.BrokerClient.{
  Step, ConnEnd, disconnected, scheduler_gone, panicked, Decoder, command_of, read_loop,
}

module _ (decode : Decoder) where
  -- What may be beyond the acknowledged messages: the next message was read and not acknowledged, and its
  -- command was given to the scheduler or not.
  abbrev pub Beyond : List BrokerEvent → List SchedulerCommand → List (BrokerEvent × Bool) → Type 0
  Beyond rest extra unacked =
      ((extra ≡ []) × (unacked ≡ []))
      ⊎ ((msg : BrokerEvent) × (later : List BrokerEvent) × (rest ≡ msg ∷ later)
          × (unacked ≡ (msg, false) ∷ [])
          × ((extra ≡ []) ⊎ (map (λ cmd. some cmd) extra ≡ command_of decode msg ∷ [])))

  -- The acknowledged messages are the first of those that arrived, and the scheduler was given their commands.
  abbrev pub AtLeastOnce :
      List BrokerEvent → List SchedulerCommand × List (BrokerEvent × Bool) × ConnEnd → Type 0
  AtLeastOnce msgs (given, read, ended) =
      (acked rest : List BrokerEvent) × (cmds extra : List SchedulerCommand) × (unacked : List
        (BrokerEvent × Bool))
      × (msgs ≡ acked ++ rest)
      × (map (λ cmd. some cmd) cmds ≡ map (command_of decode) acked)
      × (given ≡ cmds ++ extra)
      × (read ≡ map (λ msg. (msg, true)) acked ++ unacked)
      × Beyond rest extra unacked

  nothing-AtLeastOnce :
      (msgs : List BrokerEvent) (ended : ConnEnd) → AtLeastOnce msgs ([], [], ended)
  nothing-AtLeastOnce msgs ended = ([], msgs, [], [], [], refl, refl, refl, refl, inl (refl, refl))

  stopped :
      (msg : BrokerEvent) (msgs : List BrokerEvent) (given : List SchedulerCommand)
      (ended : ConnEnd)
      → (given ≡ []) ⊎ (map (λ cmd. some cmd) given ≡ command_of decode msg ∷ [])
      → AtLeastOnce (msg ∷ msgs) (given, (msg, false) ∷ [], ended)
  stopped msg msgs given ended c = (
    [],
    msg ∷ msgs,
    [],
    given,
    (msg, false) ∷ [],
    refl,
    refl,
    refl,
    refl,
    inr (msg, msgs, refl, refl, c),
  )

  taken :
      (msg : BrokerEvent) (msgs : List BrokerEvent) (cmd : SchedulerCommand)
      (given : List SchedulerCommand) (read : List (BrokerEvent × Bool)) (ended : ConnEnd)
      → command_of decode msg ≡ some cmd
      → AtLeastOnce msgs (given, read, ended)
      → AtLeastOnce (msg ∷ msgs) (cmd ∷ given, (msg, true) ∷ read, ended)
  taken msg msgs cmd given read ended e (acked, rest, cmds, extra, unacked, m, c, g, r, b) = (
    msg ∷ acked,
    rest,
    cmd ∷ cmds,
    extra,
    unacked,
    ap (◌∷◌ msg) m,
    ground (arith, c, e),
    ap (◌∷◌ cmd) g,
    ap (◌∷◌ (msg, true)) r,
    b,
  )

  -- The client stops at the message, which it does not acknowledge.
  abbrev Stops : BrokerEvent → List BrokerEvent → Step → List Step → Type 0
  Stops msg msgs step steps =
      (given : List SchedulerCommand) × (ended : ConnEnd) × ((given ≡ [])
        ⊎ (map (λ cmd. some cmd) given ≡ command_of decode msg ∷ []))
      × (read_loop decode (msg ∷ msgs) (step ∷ steps) ≡ (given, (msg, false) ∷ [], ended))

  -- It gives the message to the scheduler, acknowledges it and goes on.
  abbrev GoesOn : BrokerEvent → List BrokerEvent → Step → List Step → Type 0
  GoesOn msg msgs step steps =
      (cmd : SchedulerCommand) × (command_of decode msg ≡ some cmd)
      × (let (given, read, ended) = read_loop decode msgs steps in
          read_loop decode (msg ∷ msgs) (step ∷ steps) ≡ (cmd ∷ given, (msg, true) ∷ read, ended))

  read_loop-cases :
      (msg : BrokerEvent) (msgs : List BrokerEvent) (step : Step) (steps : List Step)
      → Stops msg msgs step steps ⊎ GoesOn msg msgs step steps
  unfolding read_loop
  read_loop-cases msg msgs step steps = elim (Option-cases (command_of decode msg)) [
    | inl e ↦ inl ([], panicked, inl refl, ground (arith, e))
    | inr (cmd, e) ↦ elim (Bool-cases step.is_taken) [
      | inr t ↦ inl ([], scheduler_gone, inl refl, ground (arith, e, t))
      | inl t ↦ elim (Bool-cases step.is_written) [
        | inr w ↦
            inl (cmd ∷ [], disconnected, inr (ap (λ o. o ∷ []) (sym e)), ground (arith, e, t, w))
        | inl w ↦ inr (cmd, e, ground (arith, e, t, w))
      ]
    ]
  ]

  -- However a connection ends, the messages that the client acknowledged are the first of those that arrived,
  -- and the scheduler was given exactly their commands, in their order, and after them at most the command of
  -- the next message, which was read and not acknowledged. An acknowledgement counts as soon as the client
  -- wrote it.
  pub read_loop-AtLeastOnce :
      (msgs : List BrokerEvent) (steps : List Step) → AtLeastOnce msgs (read_loop decode msgs steps)
  unfolding read_loop
  read_loop-AtLeastOnce [] steps = nothing-AtLeastOnce [] disconnected
  read_loop-AtLeastOnce (msg ∷ msgs) [] = nothing-AtLeastOnce (msg ∷ msgs) disconnected
  read_loop-AtLeastOnce (msg ∷ msgs) (step ∷ steps) = elim (read_loop-cases msg msgs step steps) [
    | inl (given, ended, c, e) ↦
        subst (AtLeastOnce (msg ∷ msgs)) (sym e) (stopped msg msgs given ended c)
    | inr (cmd, c, e) ↦
        let (given, read, ended) = read_loop decode msgs steps in
        subst (AtLeastOnce (msg ∷ msgs)) (sym e)
          (taken msg msgs cmd given read ended c (read_loop-AtLeastOnce msgs steps))
  ]
