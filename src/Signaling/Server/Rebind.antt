-- ===== src/Signaling/Server/Rebind.antt =====
-- An endpoint that binds again while its old connection is still being served.
use collab_mode.Prelude.{ℕ, ◌==◌, ◌≡◌, refl, false, none, some, List, Text}
use collab_mode.Map.{nat_eq, text_eq, lookup, remove}
use collab_mode.Map.Laws.{beq_self, lookup-insert, lookup-remove}
use collab_mode.Signaling.Server.{Hub, begin_connection, end_connection}

end_connection-found :
    (channel : ℕ) (hub : Hub) (id : Text) (ping : ℕ)
    → lookup channel hub.connections ≡ some (record { endpoint_id = some id; last_ping = ping })
    → end_connection channel hub ≡ record {
      endpoint_map = remove id hub.endpoint_map;
      connections = remove channel hub.connections;
    }
unfolding end_connection
end_connection-found channel hub id ping e = rw (e, end_connection) refl

-- An endpoint binds on one connection, and again on another before the first one ends. When the
-- first one ends, the endpoint is not bound any longer, although its second connection is served.
pub end_connection-unbinds :
    (first second t1 t2 : ℕ) (id : Text) (trusted1 trusted2 : List Text) (hub : Hub)
    → (second == first) ≡ false
    → (first == second) ≡ false
    → let bound =
        begin_connection t2 second id trusted2 (begin_connection t1 first id trusted1 hub) in
      let ended = end_connection first bound in
      (lookup id bound.endpoint_map ≡ some (record { msg_tx = second; trusted = trusted2 }))
      × (lookup id ended.endpoint_map ≡ none)
      × (lookup second ended.connections ≡ some (record { endpoint_id = some id; last_ping = t2 }))
unfolding begin_connection
end_connection-unbinds first second t1 t2 id trusted1 trusted2 hub apart apart' =
    let bound =
      begin_connection t2 second id trusted2 (begin_connection t1 first id trusted1 hub) in
    let served : lookup first bound.connections
        ≡ some (record { endpoint_id = some id; last_ping = t1 }) =
      rw lookup-insert (rw apart (rw lookup-insert (rw (beq_self first) refl))) in
    let ended = end_connection-found first bound id t1 served in
    (
      rw lookup-insert (rw (beq_self id) refl),
      rw ended (rw lookup-remove (rw (beq_self id) refl)),
      rw ended (rw lookup-remove (rw apart' (rw lookup-insert (rw (beq_self second) refl)))),
    )
