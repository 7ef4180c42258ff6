-- ===== src/Demo/Delivery/Sample.antt =====
-- src/TelemetryManager/telemetry_manager.cpp, src/SomeipClient/someip_client.cpp and src/main.cpp: a
-- sample on its way from the telemetry manager through the SOME/IP client to the listener.
use connected_vehicle_platfo.Prelude.{
  ◌≡◌, sym, ap, subst, ◌∙◌, inl, inr, some, false, List, pos, [], ◌∷◌, ◌++◌, ℤ, is_negative, Text,
  length, length-append, arith,
}
use connected_vehicle_platfo.Platform.{Platform, beside}
use connected_vehicle_platfo.Sockets.{Sockets}
use connected_vehicle_platfo.SomeipClient.{SomeipClient, someip_client}
use connected_vehicle_platfo.SomeipClient.Frame.{ByteOrder}
use connected_vehicle_platfo.TelemetryManager.{
  TelemetryManager, TelemetrySample, Doubles, timestamp_format, send, publish_sample,
  generate_sample,
}
use connected_vehicle_platfo.TelemetryManager.Queue.{payload_of, publish_sample_outcome}
use connected_vehicle_platfo.TelemetryManager.Sample.Json.{
  IsReadable, members_of, read_object, read-serialize,
}
use connected_vehicle_platfo.Demo.Delivery.{Connection, IsServed, published_is_printed}

longer_by_one : (xs : List Text) (x : Text) → ¬ (xs ++ x ∷ [] ≡ xs)
longer_by_one xs x e =
    let longer = ap length e in absurd (omega (arith, length-append xs (x ∷ []), longer))

module _ {W D : Type 0} (os : Sockets W) (platform : Platform W) (doubles : Doubles D)
    (order : ByteOrder) where
  -- The call of publishSample, what it comes to, and the payload that it makes.
  abbrev pub after_sample :
      TelemetryManager → SomeipClient → W → TelemetryManager × (SomeipClient × W)
  after_sample m c w =
      (publish_sample (beside platform) doubles (some (someip_client os order)) (m, (c, w))).1

  abbrev pub sample_payload : TelemetryManager → SomeipClient → W → Text
  sample_payload m c w = (payload_of (beside platform) doubles m (c, w)).0

  -- The sample itself.
  abbrev pub sample_of : TelemetryManager → SomeipClient → W → TelemetrySample D
  sample_of m c w = (generate_sample (beside platform) doubles m (c, w)).0

  -- On a TCP connection from the SOME/IP client to a valid descriptor of the listener, with nothing
  -- in flight when the sample has its timestamp, where the texts of the sample need no escape and
  -- its numbers are printed without comma, brace and quotation mark: if publishSample over that
  -- client does not queue the sample, the listener receives at least one byte and at most its
  -- buffer, prints one line and closes the connection. The line has the whole payload if what is
  -- received covers the header and the payload, and else what has come of the payload; and a reader
  -- of JSON finds in the payload the six members of the sample.
  pub sample_is_printed :
      (m : TelemetryManager) (c : SomeipClient) (listener_fd : ℤ)
      (connection : Connection os c.socket_fd listener_fd) (w : W)
      → connection.in_flight (platform.local_time timestamp_format w).1 ≡ []
      → is_negative listener_fd ≡ false
      → IsReadable doubles (sample_of m c w)
      → (after_sample m c w).0.pending_messages ≡ m.pending_messages
      → IsServed os platform order listener_fd (sample_payload m c w) (after_sample m c w).1.1
        × (read_object 6 (sample_payload m c w) ≡ some (members_of doubles (sample_of m c w)))
  unfolding send generate_sample
  sample_is_printed m c listener_fd connection w quiet valid readable unqueued =
      elim ((publish_sample_outcome (beside platform) doubles (someip_client os order) m
        (c, w)).1) [
          | inr (why, queued) ↦ absurd (
              longer_by_one m.pending_messages (sample_payload m c w)
                (sym (ap (λ (r : TelemetryManager). r.pending_messages) queued) ∙ unqueued))
          | inl (up, ok, sent) ↦ (
            subst
                (λ (s : TelemetryManager × (SomeipClient × W)).
                  IsServed os platform order listener_fd (sample_payload m c w) s.1.1)
                (sym sent)
                (published_is_printed os platform order c listener_fd connection
                  c.mqtt_config.telemetry_topic (sample_payload m c w) (pos 1)
                  (platform.local_time timestamp_format w).1 quiet valid ok),
            read-serialize doubles (sample_of m c w) readable,
          )
        ]
