-- ===== src/Group/Application/Delivery.antt =====
-- `encrypt_application_message` and `decrypt_application_message` of src/pure_mls/group.py together, for two
-- members in one epoch.
use pure_mls.Prelude.{
  ℕ, ◌+◌, ◌≡◌, ◌≤◌, ◌<◌, sym, ap, ◌∙◌, subst, arith, Bytes, ◌++◌, append_assoc, length,
  length-append, take, drop, slice, take-append, drop-append, ok, ok-injective, bind-eq-ok, ◌⊕◌,
  ⊕-eq-ok, lt→ltb, le→ltb,
}
use pure_mls.Primitives.{Primitives}
use pure_mls.Ciphers.{Ciphers, Decrypts}
use pure_mls.Tls.Ints.{int_to_bytes, pack, from_be}
use pure_mls.Tls.Ints.RoundTrip.{slice-append}
use pure_mls.Tls.Ints.Digits.{pack-eq-ok, int_to_bytes-eq-ok, length-to_be, from_be-to_be}
use pure_mls.SecretTree.{application, get_key_and_nonce, get_key_and_nonce_for_gen, next_generation}
use pure_mls.SecretTree.Ratchet.{IsCoherent, IsAhead}
use pure_mls.SecretTree.Agreement.{get_key_and_nonce_for_gen-agrees, get_key_and_nonce-for_gen}
use pure_mls.Group.State.{MlsGroup, get_secret_tree}
use pure_mls.Group.Application.{
  associated_data, sender_data_keys, sealed, encrypt_application_message, unpack_u32, parts,
  sender_leaf, opened_sender, decrypt_application_message,
}

-- Two members are in the same epoch: what they know of it is the same.
pub record SameEpoch (g h : MlsGroup) : Type 0 where
  pub same_group : h.state.group_id ≡ g.state.group_id
  pub same_epoch : h.state.epoch_id ≡ g.state.epoch_id
  pub same_sender_data :
      h.state.key_schedule.sender_data_secret ≡ g.state.key_schedule.sender_data_secret
  pub same_encryption :
      (get_secret_tree g).encryption_secret ≡ (get_secret_tree h).encryption_secret
  pub same_leaves : (get_secret_tree g).n_leaves ≡ (get_secret_tree h).n_leaves

parts-written :
    (a sd b content : Bytes)
    → length a ≡ 2
    → from_be a ≡ length sd
    → length b ≡ 4
    → parts (a ++ (sd ++ (b ++ content))) ≡ ok (sd, (from_be b, content))
unfolding parts unpack_u32
parts-written a sd b content ha hn hb =
    let payload = a ++ (sd ++ (b ++ content)) in
    let size : slice payload 0 2 ≡ a =
      subst (λ k. take k payload ≡ a) ha (take-append a (sd ++ (b ++ content))) in
    let first : slice payload 2 (2 + length sd) ≡ sd =
      subst (λ k. slice payload k (k + length sd) ≡ sd) ha (slice-append a sd (b ++ content)) in
    let second : slice payload (2 + length sd) (2 + length sd + 4) ≡ b =
      rw (append_assoc a sd (b ++ content), length-append a sd, ha, hb) at
        (slice-append (a ++ sd) b content) in
    let whole : (a ++ (sd ++ b)) ++ content ≡ payload =
      append_assoc a (sd ++ b) content ∙ ap (λ t. a ++ t) (append_assoc sd b content) in
    let width : length (a ++ (sd ++ b)) ≡ 2 + length sd + 4 =
      omega (arith, length-append a (sd ++ b), length-append sd b, ha, hb) in
    let last : drop (2 + length sd + 4) payload ≡ content =
      rw (whole, width) at (drop-append (a ++ (sd ++ b)) content) in
    rw (size, hn, first, second, last, hb)

sender_leaf-written :
    (g : MlsGroup) (leaf : ℕ) (e : Bytes)
    → pack 4 leaf ≡ ok e
    → leaf < g.state.tree.num_leaves
    → sender_leaf g e ≡ ok leaf
unfolding sender_leaf unpack_u32
sender_leaf-written g leaf e h lt =
    let (small, digits) = pack-eq-ok 4 leaf e h in
    let back : from_be e ≡ leaf = ap from_be (sym digits) ∙ from_be-to_be 4 leaf small in
    let size : length e ≡ 4 = ap length (sym digits) ∙ length-to_be 4 leaf in
    rw (size, back, lt→ltb leaf g.state.tree.num_leaves lt)

-- A message is cut into what it was put together from.
parts-layout :
    (ct content payload : Bytes) (gen : ℕ)
    → (int_to_bytes 2 (length ct) ⊕ ok ct ⊕ pack 4 gen ⊕ ok content) ≡ ok payload
    → parts payload ≡ ok (ct, (gen, content))
parts-layout ct content payload gen e =
    let (a, r1, ha, hr1, q1) =
      ⊕-eq-ok (int_to_bytes 2 (length ct)) (ok ct ⊕ pack 4 gen ⊕ ok content) e in
    let (ct', r2, hct', hr2, q2) = ⊕-eq-ok (ok ct) (pack 4 gen ⊕ ok content) hr1 in
    let (b, content', hb, hcontent', q3) = ⊕-eq-ok (pack 4 gen) (ok content) hr2 in
    let written : payload ≡ a ++ (ct ++ (b ++ content)) =
      q1
      ∙ ap (λ t. a ++ t)
          (q2
            ∙ ap (λ t. t ++ r2) (sym (ok-injective hct'))
            ∙ ap (λ t. ct ++ t) (q3 ∙ ap (λ t. b ++ t) (sym (ok-injective hcontent')))) in
    let (small, digits) = int_to_bytes-eq-ok 2 (length ct) a ha in
    let (small_gen, digits_gen) = pack-eq-ok 4 gen b hb in
    let cut =
      parts-written a ct b content (ap length (sym digits) ∙ length-to_be 2 (length ct))
        (ap from_be (sym digits) ∙ from_be-to_be 2 (length ct) small)
        (ap length (sym digits_gen) ∙ length-to_be 4 gen) in
    ap parts written
    ∙ cut
    ∙ ap (λ n. ok (ct, (n, content))) (ap from_be (sym digits_gen) ∙ from_be-to_be 4 gen small_gen)

length-layout :
    (ct content payload : Bytes) (gen : ℕ)
    → (int_to_bytes 2 (length ct) ⊕ ok ct ⊕ pack 4 gen ⊕ ok content) ≡ ok payload
    → 2 ≤ length payload
length-layout ct content payload gen e =
    let (a, r1, ha, hr1, q1) =
      ⊕-eq-ok (int_to_bytes 2 (length ct)) (ok ct ⊕ pack 4 gen ⊕ ok content) e in
    let (small, digits) = int_to_bytes-eq-ok 2 (length ct) a ha in
    omega (arith, ap length q1, length-append a r1, ap length digits, length-to_be 2 (length ct))

-- What the sender put into a message.
record IsSealed (p : Primitives) (c : Ciphers) (g : MlsGroup) (plaintext payload : Bytes)
    (k : Bytes × (Bytes × ℕ)) : Type 0 where
  ad : Bytes
  content : Bytes
  sd : Bytes × Bytes
  sdp : Bytes
  ct : Bytes
  had : associated_data g ≡ ok ad
  hcontent : c.aes_gcm_encrypt k.0 k.1.0 plaintext ad ≡ ok content
  hsd : sender_data_keys p g content ≡ ok sd
  hsdp : pack 4 g.my_index ≡ ok sdp
  hct : c.aes_gcm_encrypt sd.0 sd.1 sdp ad ≡ ok ct
  layout : (int_to_bytes 2 (length ct) ⊕ ok ct ⊕ pack 4 k.1.1 ⊕ ok content) ≡ ok payload

sealed-IsSealed :
    (p : Primitives) (c : Ciphers) (g : MlsGroup) (plaintext payload : Bytes)
    (k : Bytes × (Bytes × ℕ))
    → sealed p c g plaintext k ≡ ok payload
    → IsSealed p c g plaintext payload k
unfolding sealed
sealed-IsSealed p c g plaintext payload k e =
    let (ad', had', e1) = bind-eq-ok (associated_data g) _ e in
    let (content', hc, e2) = bind-eq-ok (c.aes_gcm_encrypt k.0 k.1.0 plaintext ad') _ e1 in
    let (sd', hsd', e3) = bind-eq-ok (sender_data_keys p g content') _ e2 in
    let (sdp', hsdp', e4) = bind-eq-ok (pack 4 g.my_index) _ e3 in
    let (ct', hct', e5) = bind-eq-ok (c.aes_gcm_encrypt sd'.0 sd'.1 sdp' ad') _ e4 in
    record {
      ad = ad';
      content = content';
      sd = sd';
      sdp = sdp';
      ct = ct';
      had = had';
      hcontent = hc;
      hsd = hsd';
      hsdp = hsdp';
      hct = hct';
      layout = e5;
    }

-- The receiver's side of it, up to the content.
opened_sender-IsSealed :
    (p : Primitives) (c : Ciphers) (g h : MlsGroup) (plaintext payload : Bytes)
    (k : Bytes × (Bytes × ℕ))
    → Decrypts c
    → SameEpoch g h
    → g.my_index < h.state.tree.num_leaves
    → (m : IsSealed p c g plaintext payload k)
    → opened_sender p c h payload ≡ ok (m.ad, (g.my_index, (k.1.1, m.content)))
unfolding opened_sender associated_data sender_data_keys
opened_sender-IsSealed p c g h plaintext payload k dec same lt m =
    let long = le→ltb (length payload) 2 (length-layout m.ct m.content payload k.1.1 m.layout) in
    let ad' : associated_data h ≡ ok m.ad = rw (same.same_group, same.same_epoch) m.had in
    let sd' : sender_data_keys p h m.content ≡ ok m.sd = rw same.same_sender_data m.hsd in
    let inner = dec.decrypts m.sd.0 m.sd.1 m.sdp m.ad m.ct m.hct in
    rw (
      long,
      ad',
      parts-layout m.ct m.content payload k.1.1 m.layout,
      sd',
      inner,
      sender_leaf-written h g.my_index m.sdp m.hsdp lt,
    )

-- If AES-GCM decrypts what it encrypted, then a message that one member encrypts is decrypted to its plaintext by
-- another that is in the same epoch, whose ratchet tree has the sender's leaf, if the secret trees of both hold right
-- secrets only and neither is past the sender's next generation for that leaf.
pub decrypt_application_message-encrypt_application_message :
    (p : Primitives) (c : Ciphers) (g h g' : MlsGroup) (plaintext payload : Bytes)
    → Decrypts c
    → SameEpoch g h
    → g.my_index < h.state.tree.num_leaves
    → IsCoherent p (get_secret_tree g)
    → IsCoherent p (get_secret_tree h)
    → IsAhead
        (next_generation (get_secret_tree g) g.my_index)
        ((get_secret_tree g).leaf_cache g.my_index application)
    → IsAhead
        (next_generation (get_secret_tree g) g.my_index)
        ((get_secret_tree h).leaf_cache g.my_index application)
    → encrypt_application_message p c g plaintext ≡ (ok payload, g')
    → (decrypt_application_message p c h payload).0 ≡ ok plaintext
unfolding encrypt_application_message decrypt_application_message
decrypt_application_message-encrypt_application_message p c g h g' plaintext payload dec same lt kg
      kh ag ah e =
    let tree = get_secret_tree g in
    let (k, hk, hs) =
      bind-eq-ok (get_key_and_nonce p tree g.my_index application).0 (sealed p c g plaintext)
        (ap (λ q. q.0) e) in
    let m = sealed-IsSealed p c g plaintext payload k hs in
    let opened = opened_sender-IsSealed p c g h plaintext payload k dec same lt m in
    let (sent, at_gen) = get_key_and_nonce-for_gen p tree g.my_index application k hk in
    let got =
      sym (
        get_key_and_nonce_for_gen-agrees p tree (get_secret_tree h) g.my_index
          (next_generation tree g.my_index) application same.same_encryption same.same_leaves kg kh
          ag ah)
      ∙ sent in
    let got' : (get_key_and_nonce_for_gen p (get_secret_tree h) g.my_index k.1.1 application).0
        ≡ ok (k.0, k.1.0) =
      rw at_gen got in
    rw (opened, decrypt_application_message)
      (rw got' (rw (dec.decrypts k.0 k.1.0 plaintext m.ad m.content m.hcontent)))
