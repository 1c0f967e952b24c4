-- ===== src/Dxt/Tracing.antt =====
-- dxt_posix_write, dxt_posix_read and their MPI-IO counterparts keep the DXT memory in balance:
-- everything traced fits in what darshan-core granted.
use darshan.Prelude.{
  ℕ, ◌+◌, ◌≤◌, ◌≡◌, true, not, ◌||◌, Option, none, some, arith, refl, Bool-cases, Option-cases, inl,
  inr,
}
use darshan.Prelude.Hash.{
  Uthash, total-add, total-store, total-delete, AllItems-add, AllItems-store, AllItems-delete,
}
use darshan.Prelude.Words.{add_size}
use darshan.Core.State.{Module, NameRef, Core, module_at, is_dxt}
use darshan.Core.Names.{lookup_record_name}
use darshan.Core.Register.{register_record}
use darshan.Core.Register.Granted.{spent, register_record-Answer}
use darshan.Dxt.State.{RecordRef, Runtime, Env, zero_record_ref, zero_file_record, file_record_size}
use darshan.Dxt.Trace.{succeeded, track_new_file_record, find_or_track}
use darshan.Dxt.Inv.{held, IsFit, FitItem, Balanced}
use darshan.Dxt.Grow.{Undisturbed}

-- What finding or tracking a file leaves: a balanced runtime in which the reference is found.
pub record Tracked {T R : Type 0} ⦃d : Uthash RecordRef R⦄ (i k : ℕ) (c' : Core T) (rt' : Runtime R)
    (found : Option RecordRef) : Type 0 where
  pub balanced : Balanced i c' rt'
  pub in_table : (ref : RecordRef) → found ≡ some ref → d.find rt'.rec_id_hash k ≡ some ref

zero_record_ref-IsFit : IsFit zero_record_ref
zero_record_ref-IsFit = record {
  writes = omega arith;
  write_len = refl;
  reads = omega arith;
  read_len = refl;
}

module _ {T R : Type 0} ⦃h : Uthash NameRef T⦄ ⦃d : Uthash RecordRef R⦄ (i : ℕ) (env : Env T)
    (c : Core T) (rt : Runtime R) (k : ℕ) (dxt : is_dxt i ≡ true) (quiet : Undisturbed env i)
    (bal : Balanced i c rt) where
  new_ref : RecordRef
  new_ref = record zero_record_ref {
    file_rec = record zero_file_record { id = k; rank = rt.my_rank; hostname = env.hostname };
  }

  new_ref-IsFit : IsFit new_ref
  unfolding new_ref
  new_ref-IsFit = record {
    writes = omega arith;
    write_len = refl;
    reads = omega arith;
    read_len = refl;
  }

  -- The reference is in the table when the record is granted or refused, and is taken out again if
  -- it cannot be used.
  untracked :
      (c' : Core T) (owner' : Module)
      → d.find rt.rec_id_hash k ≡ none
      → module_at c' i ≡ some owner'
      → owner'.rec_mem_avail ≤ (bal.owner).rec_mem_avail
      → Balanced i c'
          (record rt { rec_id_hash = d.delete (d.add rt.rec_id_hash k zero_record_ref) k })
  untracked c' owner' absent here le =
      let present : d.find (d.add rt.rec_id_hash k zero_record_ref) k ≡ some zero_record_ref =
        ground (arith, d.find-add rt.rec_id_hash k zero_record_ref k absent) in
      record {
        owner = owner';
        registered = here;
        balance = ground (
          arith,
          bal.balance,
          total-add d held rt.rec_id_hash k zero_record_ref absent,
          total-delete d held (d.add rt.rec_id_hash k zero_record_ref) k zero_record_ref present,
        );
        small = bal.small;
        fit =
            AllItems-delete d FitItem (d.add rt.rec_id_hash k zero_record_ref) k zero_record_ref
              present
              (AllItems-add d FitItem rt.rec_id_hash k zero_record_ref absent bal.fit
                zero_record_ref-IsFit);
      }

  tracked :
      (c' : Core T)
      → d.find rt.rec_id_hash k ≡ none
      → file_record_size ≤ (bal.owner).rec_mem_avail
      → module_at c' i ≡ some (spent bal.owner file_record_size)
      → Tracked i k c'
          (record rt {
            rec_id_hash = d.store (d.add rt.rec_id_hash k zero_record_ref) k new_ref;
            file_rec_count = rt.file_rec_count + 1;
            mem_used = add_size rt.mem_used file_record_size;
          })
          (some new_ref)
  unfolding new_ref
  tracked c' absent room here =
      let t' = d.add rt.rec_id_hash k zero_record_ref in
      let present : d.find t' k ≡ some zero_record_ref =
        ground (arith, d.find-add rt.rec_id_hash k zero_record_ref k absent) in
      record {
        balanced = record {
          owner = spent bal.owner file_record_size;
          registered = here;
          balance = ground (
            arith,
            bal.balance,
            total-add d held rt.rec_id_hash k zero_record_ref absent,
            total-store d held t' k zero_record_ref new_ref present,
          );
          small = bal.small;
          fit =
              AllItems-store d FitItem t' k zero_record_ref new_ref present
                (AllItems-add d FitItem rt.rec_id_hash k zero_record_ref absent bal.fit
                  zero_record_ref-IsFit)
                new_ref-IsFit;
        };
        in_table = λ ref e. ground (arith, d.find-store t' k zero_record_ref new_ref k present, e);
      }

  track_new_file_record-Tracked :
      d.find rt.rec_id_hash k ≡ none
      → let (c', rt', found) = track_new_file_record i env c rt k in Tracked i k c' rt' found
  unfolding track_new_file_record succeeded new_ref
  track_new_file_record-Tracked absent =
      elim (Bool-cases (not env.alloc_ref || not env.alloc_tracker)) [
        | inl full ↦
            rw (full, track_new_file_record)
              (record { balanced = bal; in_table = λ ref e. ground (arith, e) })
        | inr enough ↦
            elim (register_record-Answer env.meanwhile env.alloc_name c k (lookup_record_name c k) i
              file_record_size bal.owner dxt (quiet c) bal.registered
              (ground (arith, bal.balance, bal.small))) [
                | inl (refused, kept) ↦
                    rw (enough, track_new_file_record, refused)
                      (record {
                        balanced =
                            untracked
                              (register_record env.meanwhile env.alloc_name c k
                                (lookup_record_name c k) i file_record_size).0
                              bal.owner absent kept (omega arith);
                        in_table = λ ref e. ground (arith, e);
                      })
                | inr (got, room, kept) ↦ elim (Bool-cases env.alloc_file) [
                  | inl ok ↦
                      rw (enough, track_new_file_record, got, ok)
                        (tracked
                          (register_record env.meanwhile env.alloc_name c k (lookup_record_name c k)
                            i file_record_size).0
                          absent room kept)
                  | inr failed ↦
                      rw (enough, track_new_file_record, got, failed)
                        (record {
                          balanced =
                              untracked
                                (register_record env.meanwhile env.alloc_name c k
                                  (lookup_record_name c k) i file_record_size).0
                                (spent bal.owner file_record_size) absent kept (omega arith);
                          in_table = λ ref e. ground (arith, e);
                        })
                ]
              ]
      ]

  pub find_or_track-Tracked :
      let (c', rt', found) = find_or_track i env c rt k in Tracked i k c' rt' found
  unfolding find_or_track
  find_or_track-Tracked = elim (Option-cases (d.find rt.rec_id_hash k)) [
    | inl absent ↦ rw (absent, find_or_track) (track_new_file_record-Tracked absent)
    | inr (ref, found) ↦
        rw (found, find_or_track)
          (record { balanced = bal; in_table = λ ref' e. ground (arith, found, e) })
  ]
