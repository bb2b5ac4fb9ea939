-- ===== src/BrokerClient/Examples.antt =====
-- A connection over which the acknowledgement of the second of three messages is lost.
use botloader.Prelude.{true, false, some, List, [], ◌∷◌}
use botloader.DiscordBroker.{BrokerEvent, hello, discord_event}
use botloader.GuildScheduler.{other}
use botloader.BrokerClient.{Step, Decoder, read_loop}
use botloader.BrokerClient.Deliveries.{AtLeastOnce, read_loop-AtLeastOnce}

abbrev decode : Decoder
decode e = some (record { guild_id = e.0; kind = other; body = e.1 })

abbrev messages : List BrokerEvent
messages = hello (7 ∷ []) ∷ discord_event (7, 1) ∷ discord_event (7, 2) ∷ []

abbrev steps : List Step
steps =
    record { is_taken = true; is_written = true }
    ∷ record { is_taken = true; is_written = false }
    ∷ []

read_loop-AtLeastOnce_example : AtLeastOnce decode messages (read_loop decode messages steps)
read_loop-AtLeastOnce_example = read_loop-AtLeastOnce decode messages steps
