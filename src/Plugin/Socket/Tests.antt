-- ===== src/Plugin/Socket/Tests.antt =====
-- A dial that fails, a connection that a send breaks in the middle of a line, and one that the
-- receiver loses.
use fcitx5_anytalk.Prelude.{◌≡◌, refl, none, some, List, [], ◌∷◌}
use fcitx5_anytalk.Plugin.Socket.{
  unconnected, hands, tells_idle, no_socket, refused, connected, sent, interrupted, failed,
  send_all, send_both, ClientStep, receives, sends, cuts, client_run,
}
use fcitx5_anytalk.Plugin.Socket.Streams.{deliveries}
use fcitx5_anytalk.Plugin.Socket.Streams.Kept.{client_run-streams}

abbrev steps : List ClientStep
steps =
    receives (refused 4) none
    ∷ receives (connected 5) (some (1 ∷ 0x0a ∷ 2 ∷ []))
    ∷ sends no_socket (sent 1 ∷ interrupted ∷ sent 1 ∷ failed ∷ []) (7 ∷ 8 ∷ [])
    ∷ sends (connected 6) (sent 2 ∷ sent 1 ∷ []) (7 ∷ 8 ∷ [])
    ∷ receives no_socket (some (3 ∷ []))
    ∷ receives no_socket (some (4 ∷ 0x0a ∷ []))
    ∷ receives no_socket none
    ∷ cuts (connected 7) (failed ∷ []) (7 ∷ 8 ∷ [])
    ∷ []

client_run-streams_example :
    deliveries ((client_run steps unconnected).1)
    ≡ hands (1 ∷ []) ∷ hands (3 ∷ 4 ∷ []) ∷ tells_idle ∷ tells_idle ∷ []
unfolding unconnected send_both send_all
client_run-streams_example = client_run-streams steps none unconnected (refl, refl)
