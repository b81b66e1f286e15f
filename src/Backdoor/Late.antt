-- ===== src/Backdoor/Late.antt =====
-- An acknowledgement that comes too late (src/backdoor/backdoor.rs).
use head_end_system_tpp.Prelude.{ℕ, ◌≡◌, refl, ap, ◌∙◌, true, some, [], ◌∷◌, ◌++◌, ==_refl}
use head_end_system_tpp.Prelude.Map
use head_end_system_tpp.Wire.{Bytes}
use head_end_system_tpp.Messages.{Message, nack_internal_error}
use head_end_system_tpp.Messages as Types
use head_end_system_tpp.Messages.Rlp.{Rlp}
use head_end_system_tpp.Messages.Create as New
use head_end_system_tpp.Messages.Codec.{codec_encode}
use head_end_system_tpp.Database.{Device, RegistrationStatus, ack_timeout}
use head_end_system_tpp.Database as DbTypes
use head_end_system_tpp.Database.InMemory as Db
use head_end_system_tpp.Cluster.Address.{SocketAddr}
use head_end_system_tpp.Backdoor.{
  Backdoor, ok, World, ◌>>=◌, store, ask, send_msg, send_if_ok, next_seq, same_ip, acknowledged,
  handle_backdoor_ack_msg, ack_timer,
}
use head_end_system_tpp.Backdoor.Pending.{IsPending}

-- The device is still known, and its registration timed out.
timed_out_lem :
    (n u now : ℕ) (d : Device) (s : Backdoor)
    → IsPending n u d s.manager
    → (Db.get_device d.id (ack_timer now d.id s).manager.scheduler.database ≡ DbTypes.Result.ok d)
      × (Map.get d.id (ack_timer now d.id s).manager.scheduler.database.device_registration
          ≡ some (ack_timeout, now))
      × ((ack_timer now d.id s).sent ≡ s.sent)
unfolding ack_timer store Db.registration_timeout Db.get_device
timed_out_lem n u now d s p =
    rw (p.pending, Db.registration_timeout)
      (
        p.known,
        rw
            (
              Map.get-modify d.id d.id (λ (e : RegistrationStatus × ℕ). (ack_timeout, now))
                  s.manager.scheduler.database.device_registration,
              ==_refl d.id,
              p.pending,
            )
            refl,
        refl,
      )

module _ (wire : Bytes) (rlp : Rlp) (w : World) where
  answers_late :
      (sec now : ℕ) (msg : Message) (addr : SocketAddr) (d : Device) (s : Backdoor)
      → w.clock ≡ some sec
      → Db.get_device msg.device_id s.manager.scheduler.database ≡ DbTypes.Result.ok d
      → same_ip w addr d ≡ true
      → Map.get d.id s.manager.scheduler.database.device_registration ≡ some (ack_timeout, now)
      → ((handle_backdoor_ack_msg wire rlp w msg addr s).1 ≡ ok tt)
        × ((handle_backdoor_ack_msg wire rlp w msg addr s).0.manager ≡ s.manager)
        × (nack : Message) × (New.new_nack_message w.clock msg.device_id
              (next_seq msg)
              nack_internal_error
            ≡ Types.Result.ok nack)
        × ((handle_backdoor_ack_msg wire rlp w msg addr s).0.sent
            ≡ s.sent ++ (addr, codec_encode wire rlp nack) ∷ [])
  unfolding handle_backdoor_ack_msg ◌>>=◌ ask acknowledged send_if_ok send_msg
      Db.get_device_registration New.new_nack_message New.new_message
  answers_late sec now msg addr d s clock known passes late =
      rw (known, passes, late, Db.get_device_registration, clock) (refl, refl, _, refl, refl)

  -- When the timer of a device that waits for its acknowledgement has fired, an acknowledgement from
  -- the IP of the device is answered by a NACK for an internal error, and the registration stays
  -- timed out at the time of the timer, if the clock stands after the epoch.
  pub late_ack_lem :
      (n u sec now : ℕ) (msg : Message) (addr : SocketAddr) (d : Device) (s : Backdoor)
      → w.clock ≡ some sec
      → msg.device_id ≡ d.id
      → same_ip w addr d ≡ true
      → IsPending n u d s.manager
      → let (s', result) = handle_backdoor_ack_msg wire rlp w msg addr (ack_timer now d.id s) in
        (result ≡ ok tt)
        × (Map.get d.id s'.manager.scheduler.database.device_registration ≡ some (ack_timeout, now))
        × (nack : Message) × (New.new_nack_message w.clock msg.device_id
              (next_seq msg)
              nack_internal_error
            ≡ Types.Result.ok nack)
        × (s'.sent ≡ s.sent ++ (addr, codec_encode wire rlp nack) ∷ [])
  late_ack_lem n u sec now msg addr d s clock id_is passes p =
      let (known, late, sent) = timed_out_lem n u now d s p in
      let (returns, same, nack, made, answered) =
        answers_late sec now msg addr d (ack_timer now d.id s) clock (rw id_is known) passes late in
      (
        returns,
        rw same late,
        nack,
        made,
        answered ∙ ap (λ xs. xs ++ (addr, codec_encode wire rlp nack) ∷ []) sent,
      )
