-- ===== src/Ftp/Connections/Runs.antt =====
-- Runs of connection events: the limits of the tracker hold in every state that the driver reaches,
-- and what the counter of active connections counts.
use ocis_ftp_bridge.Prelude.{
  ℕ, suc, ◌≤◌, ◌<◌, ◌≡◌, refl, Bool, true, none, some, [], arith, Bytes, Bool-cases, inl, inr, ◌⊎◌,
  ◌==◌, ◌||◌, if◌then◌else◌, ltb, ◌&&◌, ap, ◌∙◌,
}
use ocis_ftp_bridge.Prelude.Map.{lookup, insert, nat_eq, bytes_eq, total, delete_absent}
use ocis_ftp_bridge.Prelude.Int.{pos, sub_ℕ, suc_ℤ, pred_ℤ, suc_ℤ-sub_ℕ, pred_ℤ-sub_ℕ, sub_ℕ_cancel}
use ocis_ftp_bridge.Ftp.ConnectionTracker.{
  ConnectionTracker, new_connection_tracker, allow, release, allow_connection, release_connection,
  is_some,
}
use ocis_ftp_bridge.Ftp.ConnectionTracker.Laws.{
  allow-room, allow_refused, limits-allow, limits-release,
}
use ocis_ftp_bridge.Ftp.Connections.{Connections, client_connected, client_disconnected}
use ocis_ftp_bridge.Ftp.Connections.Counts.{
  IsCounted, ip_of, held, held_from, allow-IsCounted, release-IsCounted, held-insert, held-delete,
}

-- A driver that has served nobody yet, with a tracker for the two limits.
abbrev pub fresh_driver : ℕ → ℕ → Connections
fresh_driver max_per_ip max_global = record {
  tracker = some (new_connection_tracker max_per_ip max_global);
  allowed_connections = [];
  active_connections = pos 0;
  clients = [];
  cancelled = [];
}

-- A limit of 0 is none.
abbrev pub has_slot : ℕ → ℕ → Bool
has_slot limit n = limit == 0 || ltb n limit

module _ (addr : ℕ → Bytes) where
  -- The states that a driver reaches, with the number of turned-away connections that were closed.
  -- The FTP library gives a new connection an id that no open connection has.
  pub data Reach (d₀ : Connections) : Connections → ℕ → Type 0 where
    start : Reach d₀ d₀ 0
    connect :
        {d : Connections} {n : ℕ} (id : ℕ)
        → Reach d₀ d n
        → lookup id d.allowed_connections ≡ none
        → Reach d₀ (client_connected d id (addr id)).0 n
    leave :
        {d : Connections} {n : ℕ} {b : Bool} (id : ℕ)
        → Reach d₀ d n
        → lookup id d.allowed_connections ≡ some b
        → Reach d₀ (client_disconnected d id (addr id)) n
    turn_away :
        {d : Connections} {n : ℕ} (id : ℕ)
        → Reach d₀ d n
        → lookup id d.allowed_connections ≡ none
        → Reach d₀ (client_disconnected d id (addr id)) (suc n)

  pub record IsConsistent (max_per_ip max_global : ℕ) (d : Connections) : Type 0 where
    pub ct : ConnectionTracker
    pub tracked : d.tracker ≡ some ct
    pub counted : IsCounted addr d.allowed_connections ct
    pub per_ip : ct.max_per_ip ≡ max_per_ip
    pub global : ct.max_global ≡ max_global

  fresh-IsConsistent : (mi mg : ℕ) → IsConsistent mi mg (fresh_driver mi mg)
  unfolding new_connection_tracker total lookup
  fresh-IsConsistent mi mg = record {
    ct = new_connection_tracker mi mg;
    tracked = refl;
    counted = record {
      distinct = tt;
      per_ip = λ ip. refl;
      all = refl;
      positive = λ ip n e. ground arith;
      ip_limit = λ h ip. omega arith;
      global_limit = λ h. omega arith;
    };
    per_ip = refl;
    global = refl;
  }

  module _ (d : Connections) {ct : ConnectionTracker} (id : ℕ) (e : d.tracker ≡ some ct) where
    connected-tracker :
        (client_connected d id (addr id)).0.tracker ≡ some (allow ct (ip_of addr id)).0
    unfolding client_connected allow_connection
    connected-tracker = ground arith

    connected-allowed : (client_connected d id (addr id)).0.allowed_connections ≡ (
        if (allow ct (ip_of addr id)).1
        then insert id true d.allowed_connections
        else d.allowed_connections)
    unfolding client_connected allow_connection
    connected-allowed = ground arith

    pub connected-answer : (client_connected d id (addr id)).1 ≡ (allow ct (ip_of addr id)).1
    unfolding client_connected allow_connection
    connected-answer = ground arith

    connected-active : (client_connected d id (addr id)).0.active_connections ≡ (
        if (allow ct (ip_of addr id)).1 then suc_ℤ d.active_connections else d.active_connections)
    unfolding client_connected allow_connection
    connected-active = ground arith

    disconnected-tracker :
        (client_disconnected d id (addr id)).tracker
        ≡ some
            (if is_some (lookup id d.allowed_connections) then release ct (ip_of addr id) else ct)
    unfolding client_disconnected release_connection
    disconnected-tracker = ground arith

  module _ {mi mg : ℕ} (d : Connections) (id : ℕ) (c : IsConsistent mi mg d) where
    connect-IsConsistent :
        lookup id d.allowed_connections ≡ none
        → IsConsistent mi mg (client_connected d id (addr id)).0
    connect-IsConsistent fresh = record {
      ct = (allow c.ct (ip_of addr id)).0;
      tracked = connected-tracker d id c.tracked;
      counted =
          rw (connected-allowed d id c.tracked) (elim (Bool-cases (allow c.ct (ip_of addr id)).1) [
            | inl ok ↦ rw ok (allow-IsCounted addr id c.counted fresh ok)
            | inr refused ↦ rw refused (rw (allow_refused c.ct (ip_of addr id) refused) c.counted)
          ]);
      per_ip = (limits-allow c.ct (ip_of addr id)).0 ∙ c.per_ip;
      global = (limits-allow c.ct (ip_of addr id)).1 ∙ c.global;
    }

    leave-IsConsistent :
        {b : Bool}
        → lookup id d.allowed_connections ≡ some b
        → IsConsistent mi mg (client_disconnected d id (addr id))
    leave-IsConsistent there = record {
      ct = release c.ct (ip_of addr id);
      tracked = disconnected-tracker d id c.tracked ∙ ground (arith, there);
      counted = unfold client_disconnected in release-IsCounted addr id c.counted there;
      per_ip = (limits-release c.ct (ip_of addr id)).0 ∙ c.per_ip;
      global = (limits-release c.ct (ip_of addr id)).1 ∙ c.global;
    }

    turn_away-IsConsistent :
        lookup id d.allowed_connections ≡ none
        → IsConsistent mi mg (client_disconnected d id (addr id))
    turn_away-IsConsistent gone = record {
      ct = c.ct;
      tracked = disconnected-tracker d id c.tracked ∙ ground (arith, gone);
      counted =
          unfold client_disconnected in rw (delete_absent id d.allowed_connections gone) c.counted;
      per_ip = c.per_ip;
      global = c.global;
    }

  pub Reach-IsConsistent :
      (mi mg : ℕ) {n : ℕ} {d : Connections} → Reach (fresh_driver mi mg) d n → IsConsistent mi mg d
  Reach-IsConsistent mi mg start = fresh-IsConsistent mi mg
  Reach-IsConsistent mi mg (connect {d = d} id r fresh) =
      connect-IsConsistent d id (Reach-IsConsistent mi mg r) fresh
  Reach-IsConsistent mi mg (leave {d = d} id r there) =
      leave-IsConsistent d id (Reach-IsConsistent mi mg r) there
  Reach-IsConsistent mi mg (turn_away {d = d} id r gone) =
      turn_away-IsConsistent d id (Reach-IsConsistent mi mg r) gone

  -- In every state that a driver with a connection tracker reaches, by connections, closes and the
  -- closes of connections that were turned away, no IP holds more slots than the limit per IP and no
  -- more slots are held than the global limit; a limit of 0 is none.
  pub Reach_limits :
      (mi mg : ℕ) {n : ℕ} {d : Connections}
      → Reach (fresh_driver mi mg) d n
      → (ip : Bytes)
      → (mi ≡ 0 ⊎ held_from addr ip d.allowed_connections ≤ mi)
        × (mg ≡ 0 ⊎ held d.allowed_connections ≤ mg)
  Reach_limits mi mg r ip =
      let c = Reach-IsConsistent mi mg r in
      (
        ground (
          arith,
          c.per_ip,
          c.counted.ip_limit,
          λ (h : 0 < c.ct.max_per_ip). c.counted.ip_limit h ip,
        ),
        ground (arith, c.global, c.counted.global_limit),
      )

  -- In every state that a driver with a connection tracker reaches, by connections, closes and the
  -- closes of connections that were turned away, a new connection is let in exactly if each limit
  -- that is not 0 has a slot left: the global one, and that of the connection's own IP.
  connected-has_slot :
      (mi mg : ℕ) {n : ℕ} {d : Connections} (id : ℕ)
      → Reach (fresh_driver mi mg) d n
      → (client_connected d id (addr id)).1 ≡ (
          has_slot mg (held d.allowed_connections)
          && has_slot mi (held_from addr (ip_of addr id) d.allowed_connections))
  connected-has_slot mi mg {d} id r =
      let c = Reach-IsConsistent mi mg r in
      ground (
        arith,
        c.counted.per_ip (ip_of addr id),
        connected-answer d id c.tracked,
        allow-room c.ct (ip_of addr id),
        c.counted.all,
        c.per_ip,
        c.global,
      )

  -- In every state that a driver with a connection tracker reaches, by connections, closes and the
  -- closes of connections that were turned away, the counter of active connections is the number of
  -- held slots less the number of turned-away connections that were closed.
  pub active_connections_drift :
      (mi mg : ℕ) {n : ℕ} {d : Connections}
      → Reach (fresh_driver mi mg) d n
      → d.active_connections ≡ sub_ℕ (held d.allowed_connections) n
  unfolding client_disconnected
  active_connections_drift mi mg start = unfold total in refl
  active_connections_drift mi mg (connect {d = d} {n = n} id r fresh) =
      let c = Reach-IsConsistent mi mg r in
      rw (connected-active d id c.tracked) (
        rw (connected-allowed d id c.tracked) (elim (Bool-cases (allow c.ct (ip_of addr id)).1) [
          | inl ok ↦ rw ok (
              rw (held-insert id d.allowed_connections c.counted.distinct fresh)
                (ap suc_ℤ (active_connections_drift mi mg r) ∙ suc_ℤ-sub_ℕ _ n))
          | inr refused ↦ rw refused (active_connections_drift mi mg r)
        ]))
  active_connections_drift mi mg (leave {d = d} {n = n} id r there) =
      let c = Reach-IsConsistent mi mg r in
      let fewer = held-delete id d.allowed_connections c.counted.distinct there in
      ap pred_ℤ (active_connections_drift mi mg r)
      ∙ rw (← fewer) (pred_ℤ-sub_ℕ _ n ∙ sub_ℕ_cancel _ n)
  active_connections_drift mi mg (turn_away {d = d} {n = n} id r gone) =
      rw (delete_absent id d.allowed_connections gone) (
        ap pred_ℤ (active_connections_drift mi mg r)
        ∙ pred_ℤ-sub_ℕ (held d.allowed_connections) n
        ∙ ap (sub_ℕ (held d.allowed_connections)) (omega arith))
