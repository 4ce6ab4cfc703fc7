-- ===== src/Transport/Session/Numbers.antt =====
-- crates/incomudon-transport/src/lib.rs: the datagrams of a session, whatever the order of the
-- owner's calls and the thread's steps.
use incom_udon_native_rust.Base.{
  ℕ, ◌^◌, ◌≢◌, ap, ◌∙◌, ◌<◌, List, [], some, true, get_elem?, Outcome, ok, err, panic, ◌≡◌, refl,
  arith, ◌⊎◌, inl, inr, All, All-get_elem?, subst, sym,
}
use incom_udon_native_rust.Base.Words.{u64_mod}
use incom_udon_native_rust.Crypto.Primitives.{Primitives, IsLawful}
use incom_udon_native_rust.Transport.State.{
  RelayConfig, Worker, Env, SocketAddr, is_plain, is_v2, ConfigIsTyped,
}
use incom_udon_native_rust.Transport.Worker.{fresh}
use incom_udon_native_rust.Transport.Stream.{SentAs, InStream, SealsFrames}
use incom_udon_native_rust.Transport.Sequences.{IsNumbered, InStream-IsPreserved, fresh-InStream}
use incom_udon_native_rust.Transport.Counters.{
  media_frames, nonce_bytes, IsSealed, get_elem?-counters, successive-distinct, successive-lt,
}
use incom_udon_native_rust.Transport.Nonces.{InNonces, InNonces-IsPreserved, fresh-InNonces}
use incom_udon_native_rust.Crypto.Keys.{packet_nonce}
use incom_udon_native_rust.Crypto.Passwords.{packet_nonce_injective}
use incom_udon_native_rust.Transport.Session.{of_sum, starting, Os, RelaySession, connect}
use incom_udon_native_rust.Transport.Session.Acts.{Act, ActAllowed, run_acts, run_acts-Holds}

nonce_bytes_injective :
    (c : Primitives) (a b : ℕ) → a < u64_mod → b < u64_mod → nonce_bytes a ≡ nonce_bytes b → a ≡ b
unfolding packet_nonce
nonce_bytes_injective c a b ha hb same = packet_nonce_injective c a b ha hb same

-- A session whose thread has not begun.
pub record IsNew (env : Env) (c : Primitives) (config : RelayConfig) (nonce now : ℕ)
    (s : RelaySession) : Type 0 where
  pub same_config : s.config ≡ config
  pub no_commands : s.commands ≡ []
  pub joinable : s.worker ≡ true
  pub local_addr : SocketAddr
  pub begins : s.pc ≡ starting local_addr
  pub variables : s.state ≡ fresh env c config nonce now

Outcome-three_cases :
    {E A : Type 0} (o : Outcome E A)
    → ((a : A) × (o ≡ ok a)) ⊎ ((e : E) × (o ≡ err e)) ⊎ (o ≡ panic)
Outcome-three_cases (ok a) = inl (a, refl)
Outcome-three_cases (err e) = inr (inl (e, refl))
Outcome-three_cases panic = inr (inr refl)

module _ (env : Env) (c : Primitives) (os : Os) (config : RelayConfig) (nonce now : ℕ) where
  pub connect-IsNew :
      {s : RelaySession} → connect env c os config nonce now ≡ ok s → IsNew env c config nonce now s
  unfolding connect
  connect-IsNew {s} e = elim (Outcome-three_cases (of_sum os.local_addr)) [
    | inl (a, found) ↦ record {
      same_config = ground (arith, found);
      no_commands = ground (arith, found);
      joinable = ground (arith, found);
      local_addr = a;
      begins = ground (arith, found);
      variables = ground (arith, found);
    }
    | inr other ↦ absurd (ground (arith, other))
  ]

  -- On a session that was connected for a configuration and a nonce in the range of their types,
  -- without encryption or with version 2, with lawful primitives that seal every frame: whatever
  -- numbered commands the owner queues, whenever it takes events or stops the thread, and however
  -- the thread's steps fall between, the datagram at position `i` is decoded to a packet of the
  -- configured channel and sender with the sequence number `i` modulo 65536.
  pub session-SentAs :
      (typed : ConfigIsTyped config) (law : IsLawful c) (seals : SealsFrames c)
      → nonce < u64_mod
      → (is_plain config.encryption ≡ true) ⊎ (is_v2 config.encryption ≡ true)
      → {s : RelaySession} → connect env c os config nonce now ≡ ok s
      → (acts : List Act) (i : ℕ) (bytes : List ℕ) → All (ActAllowed IsNumbered) acts
      → get_elem? (run_acts env c s acts).state.wire i ≡ some bytes
      → SentAs config i bytes
  session-SentAs typed law seals small mode {s} e acts i bytes numbered g =
      let new = connect-IsNew e in
      (run_acts-Holds env c config IsNumbered (InStream config)
          (InStream-IsPreserved env config typed c law seals) s acts numbered
          (record {
            same_config = new.same_config;
            inv =
                subst (InStream config) (sym new.variables)
                  (fresh-InStream env config typed c law seals new.local_addr nonce now small mode);
            allowed = subst (All IsNumbered) (sym new.no_commands) tt;
          })).inv.sent
        i bytes g

  -- On a session that was connected for a configuration and a nonce in the range of their types,
  -- with encryption of version 2, with lawful primitives that seal every frame: whatever numbered
  -- commands the owner queues and however the thread's steps fall between, any two of the first
  -- 2 ^ 64 encrypted frames on the wire were made by the cipher under the session's media key, each
  -- with the 12 bytes of the counter that its datagram carries as the nonce, and these bytes are
  -- not the same.
  pub session-media_nonces :
      (typed : ConfigIsTyped config) (law : IsLawful c) (seals : SealsFrames c)
      → nonce < u64_mod
      → is_v2 config.encryption ≡ true
      → {s : RelaySession} → connect env c os config nonce now ≡ ok s
      → (acts : List Act) (i j : ℕ) {a b : ℕ} {one other : List ℕ}
      → All (ActAllowed IsNumbered) acts
      → i < j
      → j < 2 ^ 64
      → get_elem? (media_frames (run_acts env c s acts).state.wire) i ≡ some (a, one)
      → get_elem? (media_frames (run_acts env c s acts).state.wire) j ≡ some (b, other)
      → IsSealed c s.state.media.key (a, one)
        × IsSealed c s.state.media.key (b, other)
        × (nonce_bytes a ≢ nonce_bytes b)
  session-media_nonces typed law seals small v2 {s} e acts i j {a} {b} {one} {other} numbered lt
        within ga gb =
      let new = connect-IsNew e in
      let begun =
        fresh-InStream env config typed c law seals new.local_addr nonce now small (inr v2) in
      let key = (fresh env c config nonce now).media.key in
      let held =
        (run_acts-Holds env c config IsNumbered (InNonces config c key nonce)
          (InNonces-IsPreserved env config typed c key nonce law seals v2) s acts numbered
          (record {
            same_config = new.same_config;
            inv =
                subst (InNonces config c key nonce) (sym new.variables)
                  (fresh-InNonces env config c nonce now small begun);
            allowed = subst (All IsNumbered) (sym new.no_commands) tt;
          })).inv in
      let wire = (run_acts env c s acts).state.wire in
      let same_key = ap (λ (w : Worker). w.media.key) (sym new.variables) in
      let at_i =
        ap (λ l. get_elem? l i) (sym held.nonces) ∙ get_elem?-counters (media_frames wire) i ga in
      let at_j =
        ap (λ l. get_elem? l j) (sym held.nonces) ∙ get_elem?-counters (media_frames wire) j gb in
      (
        subst (λ k. IsSealed c k (a, one)) same_key
            (All-get_elem? (IsSealed c key) (media_frames wire) i held.sealed ga),
        subst (λ k. IsSealed c k (b, other)) same_key
            (All-get_elem? (IsSealed c key) (media_frames wire) j held.sealed gb),
        λ same. successive-distinct nonce held.count i j lt within at_i at_j (
            nonce_bytes_injective c a b (successive-lt nonce held.count i at_i)
              (successive-lt nonce held.count j at_j) same),
      )
