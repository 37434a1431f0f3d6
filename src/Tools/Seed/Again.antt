-- ===== src/Tools/Seed/Again.antt =====
-- Running the seed again.
use forex_remote_copy_tradin.Prelude.{
  ℕ, String, false, ◌≡◌, refl, sym, ◌∙◌, ap, inl, inr, Option, none, some, List, [], ◌∷◌, ◌++◌, any,
  map, length, Option-cases, ◌==◌, arith, suc, subst,
}
use forex_remote_copy_tradin.Types.{Connector}
use forex_remote_copy_tradin.World.{World}
use forex_remote_copy_tradin.Auth.{Passwords, ensure_admin}
use forex_remote_copy_tradin.Connectors.Service.{
  register_connector, new_connector, find_by_hash, of_master, of_slave,
}
use forex_remote_copy_tradin.Tools.Seed.{
  Draw, Run, dev_slaves, dev_master_account_number, master_numbered, slave_numbered,
  find_or_create_master, find_or_create_slave, seed_master, seed_slave, seed_slaves, seed,
}
use forex_remote_copy_tradin.Prelude.Results.{IfSome}
use forex_remote_copy_tradin.Tools.Seed.Found.{IsSeeded, AreThere, seed-IsSeeded}

abbrev pub hashes : World → List String
hashes w = map (λ c. c.token_hash) w.connectors

abbrev pub tokens_of : Run → List String
tokens_of run = run.of_master.token ∷ map (λ dev. (run.of_slave dev.0).token) dev_slaves

-- The run adds so many connectors, in front, and changes nothing else.
pub record IsExtended (n : ℕ) (w : World) (after : Option World) : Type 0 where
  pub new : List Connector
  pub result : after ≡ some (record w { connectors = new ++ w.connectors })
  pub count : length new ≡ n

find_by_hash-none :
    (hash : String) (cs : List Connector)
    → any (λ h. h == hash) (map (λ c. c.token_hash) cs) ≡ false
    → find_by_hash cs hash ≡ none
find_by_hash-none hash [] h = refl
find_by_hash-none hash (c ∷ cs) h = ground (arith, find_by_hash-none hash cs)

append-snoc {ℓ} :
    {A : Type ℓ} (xs : List A) (y : A) (ys : List A) → (xs ++ (y ∷ [])) ++ ys ≡ xs ++ (y ∷ ys)
append-snoc [] y ys = refl
append-snoc (x ∷ xs) y ys = ap (λ rest. x ∷ rest) (append-snoc xs y ys)

length-snoc {ℓ} : {A : Type ℓ} (xs : List A) (y : A) → length (xs ++ (y ∷ [])) ≡ suc (length xs)
length-snoc [] y = refl
length-snoc (x ∷ xs) y = ap suc (length-snoc xs y)

-- One connector, and then those of the rest.
IsExtended-next :
    (n : ℕ) (w : World) (c : Connector) (after : Option World)
    → IsExtended n (record w { connectors = c ∷ w.connectors }) after
    → IsExtended (suc n) w after
IsExtended-next n w c after rest = record {
  new = rest.new ++ (c ∷ []);
  result =
      rest.result
      ∙ ap (λ cs. some (record w { connectors = cs })) (sym (append-snoc rest.new c w.connectors));
  count = length-snoc rest.new c ∙ ap suc rest.count;
}

module _ (hash_token : String → String) where
  -- The tokens have hashes that are new, and differ.
  abbrev pub AreNew : List String → List String → Type 0
  AreNew [] hs = Unit
  AreNew (t ∷ ts) hs = (any (λ h. h == hash_token t) hs ≡ false) × AreNew ts (hash_token t ∷ hs)

  seed_slaves-again :
      (draw : String → Draw) (master_id : String) (devs : List (String × String)) (w : World)
      → AreThere devs w
      → AreNew (map (λ dev. (draw dev.0).token) devs) (hashes w)
      → IsExtended (length devs) w (seed_slaves hash_token draw master_id devs w)
  unfolding seed_slaves register_connector find_or_create_slave
  seed_slaves-again draw master_id [] w there new = record { new = []; result = refl; count = refl }
  seed_slaves-again draw master_id (dev ∷ devs) w (there, rest) (fresh, new) =
      elim (Option-cases (slave_numbered w.slaves dev.0)) [
        | inl missing ↦ absurd (let nothing = rw missing at there in cc)
        | inr (s, found) ↦
            let c =
              new_connector hash_token (draw dev.0).connector_id (draw dev.0).token (of_slave s.id)
                (some "dev-seed") in
            rw
              (
                seed_slaves,
                seed_slave,
                find_or_create_slave,
                found,
                register_connector,
                find_by_hash-none (hash_token (draw dev.0).token) w.connectors fresh,
              )
              (IsExtended-next (length devs) w c _ (
                seed_slaves-again draw master_id devs (record w { connectors = c ∷ w.connectors })
                  rest new))
      ]

  seeded-seed :
      (passwords : Passwords) (username password : String) (run : Run) (w : World)
      → IsSeeded username w
      → AreNew (tokens_of run) (hashes w)
      → IsExtended 3 w (seed hash_token passwords username password run w)
  unfolding seed ensure_admin seed_slaves register_connector find_or_create_master
  seeded-seed passwords username password run w seeded (fresh, new) =
      elim (Option-cases (master_numbered w.masters dev_master_account_number)) [
        | inl missing ↦
            absurd (let there = seeded.master in let nothing = rw missing at there in cc)
        | inr (m, found) ↦
            let c =
              new_connector hash_token run.of_master.connector_id run.of_master.token
                (of_master m.id) (some "dev-seed") in
            rw
              (
                seed,
                ensure_admin,
                seeded.admin,
                seed_master,
                find_or_create_master,
                found,
                register_connector,
                find_by_hash-none (hash_token run.of_master.token) w.connectors fresh,
              )
              (IsExtended-next 2 w c _ (
                seed_slaves-again run.of_slave m.id dev_slaves
                  (record w { connectors = c ∷ w.connectors }) seeded.slaves new))
      ]

  -- The seed is safe to run again: after a run that did not throw, another run with the same settings
  -- does not throw either, where the hashes of its three tokens are new and differ. It reuses the
  -- administrator and the accounts: all that it does is to add three connectors.
  pub seed-again :
      (passwords : Passwords) (username password : String) (first again : Run) (w v : World)
      → seed hash_token passwords username password first w ≡ some v
      → AreNew (tokens_of again) (hashes v)
      → IsExtended 3 v (seed hash_token passwords username password again v)
  seed-again passwords username password first again w v ran new =
      seeded-seed passwords username password again v
        (subst (IfSome (IsSeeded username)) ran
          (seed-IsSeeded hash_token passwords username password first w))
        new
