-- ===== src/HostBle/Sends.antt =====
-- Which packets host-ble/src/main.rs writes to the characteristic that firmware/src/nus.rs takes
-- them from.
use prime_ble_firmware.Base.{
  ℕ, arith, ◌==◌, ◌≡◌, refl, sym, subst, ap, ◌∙◌, Bool, true, false, List, [], ◌∷◌, ◌++◌, Option,
  none, some, if◌then◌else◌,
}
use mathlib.Core.List.{append_assoc, append-nil}
use prime_ble_firmware.Protocol.{Bytes}
use prime_ble_firmware.HostBle.{
  Central, Args, World, Ending, Task, ◌>>=◌, pure, skip, asks, calls, when, or_fail, or_panic,
  continue_with, data9, data10, write_characteristic_uuid,
}
use prime_ble_firmware.Firmware.Nus.{rx_uuid}
use prime_ble_firmware.HostBle.Program.{
  named, find, write, noted, write_data, read_data, on_device_connected,
}

module _ (c : Central) where
  -- The packets among these writes for which the controller raises `RxWrite`.
  abbrev pub received : List (c.Characteristic × Bytes) → List Bytes
  received [] = []
  received ((charac, packet) ∷ rest) =
      let others = received rest in if c.uuid charac == rx_uuid then packet ∷ others else others

  received-append :
      (xs ys : List (c.Characteristic × Bytes)) → received (xs ++ ys) ≡ received xs ++ received ys
  received-append [] ys = refl
  received-append ((charac, packet) ∷ xs) ys = ground (arith, received-append xs ys)

module _ {c : Central} where
  -- A task that, if it returns, has got these packets to the controller.
  pub record Sends {A : Type 0} (m : Task c A) (packets : List Bytes) : Type 0 where
    pub sends :
        (w : World c) (a : A)
        → (m w).1 ≡ Ending.returns a
        → received c (m w).0.sent ≡ received c w.sent ++ packets

  continue_with-Sends :
      {A B : Type 0} (f : A → Task c B) (before first second : List Bytes)
      → ((a : A) → Sends (f a) second)
      → (r : World c × Ending A)
      → ((a : A) → r.1 ≡ Ending.returns a → received c r.0.sent ≡ before ++ first)
      → (b : B) → (continue_with f r).1 ≡ Ending.returns b
      → received c (continue_with f r).0.sent ≡ before ++ (first ++ second)
  continue_with-Sends f before first second hf (w, Ending.returns a) hr b e =
      (hf a).sends w b e ∙ ap (λ xs. xs ++ second) (hr a refl) ∙ append_assoc before first second
  continue_with-Sends f before first second hf (w, Ending.continues) hr b e = absurd (cc)
  continue_with-Sends f before first second hf (w, Ending.fails) hr b e = absurd (cc)
  continue_with-Sends f before first second hf (w, Ending.panics) hr b e = absurd (cc)

  pub bind-Sends :
      {A B : Type 0} {m : Task c A} {f : A → Task c B} {first second : List Bytes}
      → Sends m first
      → ((a : A) → Sends (f a) second)
      → Sends (m >>= f) (first ++ second)
  unfolding ◌>>=◌
  bind-Sends {m} {f} {first} {second} hm hf = record {
    sends =
        λ w b e. continue_with-Sends f (received c w.sent) first second hf (m w) (hm.sends w) b e;
  }

  pub pure-Sends : {A : Type 0} (a : A) → Sends (pure a) []
  pure-Sends a = record { sends = λ w b e. sym (append-nil (received c w.sent)) }

  skip-Sends : (packets : List Bytes) → Sends (skip {A = Unit {0}}) packets
  skip-Sends packets = record { sends = λ w b e. absurd (cc) }

  asks-Sends : {A : Type 0} (f : c.Net → Ending A) → Sends (asks f) []
  asks-Sends f = record { sends = λ w b e. sym (append-nil (received c w.sent)) }

  calls-Sends :
      {A B : Type 0} (f : c.Net → c.Net × A) (judge : A → Ending B) → Sends (calls f judge) []
  calls-Sends f judge = record { sends = λ w b e. sym (append-nil (received c w.sent)) }

  -- What is asked for and found has a property that the rest may need.
  found-Sends :
      {A B : Type 0} (f : A → Task c B) (packets : List Bytes) (w : World c) (r : Ending A)
      → ((a : A) → r ≡ Ending.returns a → Sends (f a) packets)
      → (b : B) → (continue_with f (w, r)).1 ≡ Ending.returns b
      → received c (continue_with f (w, r)).0.sent ≡ received c w.sent ++ packets
  found-Sends f packets w (Ending.returns a) h b e = (h a refl).sends w b e
  found-Sends f packets w Ending.continues h b e = absurd (cc)
  found-Sends f packets w Ending.fails h b e = absurd (cc)
  found-Sends f packets w Ending.panics h b e = absurd (cc)

  asks_found-Sends :
      {A B : Type 0} {ask : c.Net → Ending A} {f : A → Task c B} {packets : List Bytes}
      → ((net : c.Net) (a : A) → ask net ≡ Ending.returns a → Sends (f a) packets)
      → Sends (asks ask >>= f) packets
  unfolding ◌>>=◌
  asks_found-Sends {ask} {f} {packets} h = record {
    sends = λ w b e. found-Sends f packets w (ask w.net) (h w.net) b e;
  }

  when-Sends :
      {m : Task c (Unit {0})} {packets : List Bytes} (b : Bool)
      → Sends m packets
      → Sends (when b m) (if b then packets else [])
  when-Sends true h = h
  when-Sends false h = pure-Sends tt

  guard-Sends : (b : Bool) → Sends (when b (skip {A = Unit {0}})) []
  guard-Sends true = skip-Sends []
  guard-Sends false = pure-Sends tt

module _ (c : Central) (central : c.Adapter) where
  named-Sends : (id : c.PeripheralId) → Sends (named c central id) []
  unfolding named
  named-Sends id = bind-Sends (asks-Sends _) (λ p. bind-Sends (asks-Sends _) (λ name. pure-Sends _))

  noted-sends :
      (charac : c.Characteristic) (packet : Bytes) (w : World c) (r : c.Net × Option (Unit {0}))
      (a : Unit {0})
      → c.uuid charac ≡ rx_uuid
      → (noted c central charac packet w r).1 ≡ Ending.returns a
      → received c (noted c central charac packet w r).0.sent ≡ received c w.sent ++ packet ∷ []
  unfolding noted
  noted-sends charac packet w (net, none) a is_rx e = absurd (cc)
  noted-sends charac packet w (net, some u) a is_rx e =
      ground (arith, received-append c w.sent ((charac, packet) ∷ []))

  write-Sends :
      (p : c.Peripheral) (charac : c.Characteristic) (packet : Bytes)
      → c.uuid charac ≡ rx_uuid
      → Sends (write c central p charac packet) (packet ∷ [])
  unfolding write
  write-Sends p charac packet is_rx = record {
    sends = λ w a e. noted-sends charac packet w (c.write p charac packet w.net) a is_rx e;
  }

  find-uuid :
      (wanted : ℕ) (xs : List c.Characteristic) (charac : c.Characteristic)
      → or_panic (find c central wanted xs) ≡ Ending.returns charac
      → c.uuid charac ≡ wanted
  find-uuid wanted [] charac h = absurd (cc)
  find-uuid wanted (x ∷ xs) charac h = ground (arith, find-uuid wanted xs charac)

  write_data-Sends :
      (p : c.Peripheral) → Sends (write_data c central p) (data9 ∷ data10 ∷ data9 ∷ data10 ∷ [])
  unfolding write_data
  write_data-Sends p = asks_found-Sends (λ net charac found.
      let is_rx : c.uuid charac ≡ rx_uuid =
        find-uuid write_characteristic_uuid (c.characteristics net p) charac found in
      bind-Sends (write-Sends p charac data9 is_rx) (λ _.
        bind-Sends (write-Sends p charac data10 is_rx) (λ _.
          bind-Sends (write-Sends p charac data9 is_rx) (λ _. write-Sends p charac data10 is_rx))))

  read_data-Sends : (p : c.Peripheral) → Sends (read_data c central p) []
  unfolding read_data
  read_data-Sends p =
      bind-Sends (asks-Sends _)
        (λ charac. bind-Sends (calls-Sends (c.read p charac) or_fail) (λ _. pure-Sends tt))

  -- If the handling of a new connection comes to its end, the four packets have got to the
  -- controller, if it was told to write, and none otherwise.
  pub on_device_connected-Sends :
      (args : Args) (id : c.PeripheralId)
      → Sends
          (on_device_connected c central args id)
          (if args.write_data then data9 ∷ data10 ∷ data9 ∷ data10 ∷ [] else [])
  unfolding on_device_connected
  on_device_connected-Sends args id =
      subst (Sends (on_device_connected c central args id))
        (all_packets args.write_data args.read_data)
        (bind-Sends (named-Sends id) (λ found. bind-Sends (guard-Sends _) (λ _.
          bind-Sends (calls-Sends (c.discover_services found.0) or_fail) (λ _.
            bind-Sends (when-Sends args.write_data (write_data-Sends found.0)) (λ _.
              bind-Sends (when-Sends args.read_data (read_data-Sends found.0))
                (λ _. calls-Sends (c.disconnect found.0) or_panic))))))
    where
      all_packets :
          (b r : Bool)
          → (if b then data9 ∷ data10 ∷ data9 ∷ data10 ∷ [] else [])
              ++ ((if r then [] else []) ++ [])
            ≡ (if b then data9 ∷ data10 ∷ data9 ∷ data10 ∷ [] else [])
      all_packets true true = refl
      all_packets true false = refl
      all_packets false true = refl
      all_packets false false = refl
