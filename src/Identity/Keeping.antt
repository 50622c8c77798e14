-- ===== src/Identity/Keeping.antt =====
-- src/identity.rs: a node keeps its key pair.
use vitruvius.Base.{
  ◌≡◌, refl, sym, ap, subst, ◌∙◌, Option, none, some, ◌∷◌, nat_eq, list_eq, Bytes, Result, ok,
}
use vitruvius.Paths.{FilePath}
use vitruvius.Fs.{Fs}
use vitruvius.Fs.Dirs.{create_dir_all-again}
use vitruvius.Fs.Written.{
  Written, read_file-Written, exists-Written, create_dir_all-Written, write_then-Written,
}
use vitruvius.Identity.{
  KeypairCodec, key_file, vitruvius_dir, stored_keypair, save_keypair, load_or_save,
  load_or_create_keypair,
}

module _ {K : Type 0} (codec : KeypairCodec K) where
  -- An encoded key pair is decoded to itself.
  abbrev pub Decodes : Type 0
  Decodes =
      (k : K) (b : Bytes)
      → codec.to_protobuf_encoding k ≡ some b
      → codec.from_protobuf_encoding b ≡ some k

  abbrev pub Saved : FilePath → K → K → Fs → Fs → Type 0
  Saved path fresh kp before after =
      (b : Bytes) × (kp ≡ fresh)
      × (codec.to_protobuf_encoding fresh ≡ some b)
      × Written path b before after

  save_keypair-Saved :
      (path : FilePath) (fresh kp : K) (before after : Fs)
      → save_keypair codec path fresh before ≡ (ok kp, after)
      → Saved path fresh kp before after
  unfolding save_keypair
  save_keypair-Saved path fresh kp before after e = go (codec.to_protobuf_encoding fresh) refl
    where
      go :
          (o : Option Bytes)
          → codec.to_protobuf_encoding fresh ≡ o
          → Saved path fresh kp before after
      go none encoded = absurd (cc (rw (encoded, save_keypair) at e))
      go (some b) encoded =
          let (same, written) =
            write_then-Written path b fresh kp before after (rw (encoded, save_keypair) at e) in
          (b, same, encoded, written)

  load_stored :
      (dir : FilePath) (fresh kp : K) (fs : Fs)
      → vitruvius_dir dir fs ≡ fs
      → stored_keypair codec (key_file ∷ dir) fs ≡ some kp
      → load_or_create_keypair codec dir fresh fs ≡ (ok kp, fs)
  unfolding load_or_create_keypair
  load_stored dir fresh kp fs there stored =
      ap
        (λ f. load_or_save codec (key_file ∷ dir) fresh (stored_keypair codec (key_file ∷ dir) f) f)
        there
      ∙ ap (λ o. load_or_save codec (key_file ∷ dir) fresh o fs) stored

  -- What is on disk is loaded again, with another fresh key pair at hand.
  load_or_save-again :
      (dir : FilePath) (fresh fresh' kp : K) (made after : Fs) (found : Option K)
      → Decodes
      → vitruvius_dir dir made ≡ made
      → stored_keypair codec (key_file ∷ dir) made ≡ found
      → load_or_save codec (key_file ∷ dir) fresh found made ≡ (ok kp, after)
      → load_or_create_keypair codec dir fresh' after ≡ (ok kp, after)
  load_or_save-again dir fresh fresh' kp made after (some kp0) decodes there stored e =
      subst (λ f. load_or_create_keypair codec dir fresh' f ≡ (ok kp, after))
        (ap (λ (r : Result K × Fs). r.1) e) (load_stored dir fresh' kp0 made there stored ∙ e)
  load_or_save-again dir fresh fresh' kp made after none decodes there stored e =
      let (b, same, encoded, w) = save_keypair-Saved (key_file ∷ dir) fresh kp made after e in
      let readable : stored_keypair codec (key_file ∷ dir) after ≡ some kp =
        rw (exists-Written w, read_file-Written w) (decodes fresh b encoded ∙ ap some (sym same)) in
      load_stored dir fresh' kp after
        (ap (λ (r : Result (Unit {0}) × Fs). r.1)
          (create_dir_all-Written key_file dir b made after w))
        readable

  -- If key pairs are decoded from their encoding: once a start has loaded or made a key pair, every
  -- later start on the disk that it left loads the same one and changes nothing, whatever key pair
  -- it would make.
  pub load_or_create_keypair-again :
      (dir : FilePath) (fresh fresh' kp : K) (before after : Fs)
      → Decodes
      → load_or_create_keypair codec dir fresh before ≡ (ok kp, after)
      → load_or_create_keypair codec dir fresh' after ≡ (ok kp, after)
  unfolding load_or_create_keypair
  load_or_create_keypair-again dir fresh fresh' kp before after decodes e =
      let made = vitruvius_dir dir before in
      load_or_save-again dir fresh fresh' kp made after (stored_keypair codec (key_file ∷ dir) made)
        decodes (ap (λ (r : Result (Unit {0}) × Fs). r.1) (create_dir_all-again dir before)) refl e
