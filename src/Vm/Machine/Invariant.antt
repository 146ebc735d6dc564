-- ===== src/Vm/Machine/Invariant.antt =====
-- What every method of the machine keeps: valid planes, a balanced account, sixteen registers and a
-- cache within its capacity.
use memory3d.Prelude.{
  ℕ, ◌+◌, ◌^◌, ◌<◌, sym, subst, Option, none, some, Bool, true, false, List, arith, length, u32,
}
use memory3d.Allocator.{Allocator3D, Result, got, nothing, panicked, failed}
use memory3d.Allocator.Validity.{IsSound, new_allocator3d-IsSound}
use memory3d.Allocator.Reachability.{allocate-IsSound}
use memory3d.Types.Address.{Address3D}
use memory3d.Types.Allocation.{Allocation, deref}
use memory3d.Types.Float.{FloatOps}
use memory3d.Types.Region.{region_type_heap}
use memory3d.Vm.Cache.Bounds.{put_cached-IsHeld}
use memory3d.Vm.Gas.{GasAccountant3D}
use memory3d.Vm.Gas.Balance.{Within, consume-Within, new_accountant-Within}
use memory3d.Vm.Memory.{
  MemoryManager, new_memory_manager, address_not_allocated, Stored, stored, store_refused,
  store_crashed, log_access,
}
use memory3d.Vm.Memory.Soundness.{load3d-allocator, store3d-sound, update_access_at-sound}
use memory3d.Vm.Memory.Tracking.{track_allocation}
use memory3d.Vm.Machine.{Host, VmConfig, Vm3D, allocator_of, vm_allocator_config, new_vm3d}
use memory3d.Vm.Machine.Api.{
  vm_load3d, charged, after_store, store_again, store_in_block, with_vm_allocator, with_memory,
  store_anew, store_first, vm_store3d, register_block, finish_allocate, allocate_memory,
}
use memory3d.Vm.Machine.Holding.{Held, new_vm3d-Held}
use memory3d.Vm.Machine.Keeping.{Sound}
use memory3d.Vm.Machine.Loop.{begin, execute}
use memory3d.Vm.Machine.Rounds.{round-Round, run-keeps, goes_on-inside}

-- The allocator's planes are valid, the gas left and used add up to the limit, and the registers and
-- the cache are as their methods keep them.
pub record IsWell (limit : ℕ) (vm : Vm3D) : Type 0 where
  pub sound : Sound vm.core
  pub balanced : Within limit vm.gas_account
  pub held : Held vm.core

pub new_vm3d-IsWell :
    (host : Host) (config : VmConfig)
    → config.gas_limit < 2 ^ 63
    → IsWell config.gas_limit (new_vm3d host config)
unfolding new_vm3d new_memory_manager
new_vm3d-IsWell host config small = record {
  sound = new_allocator3d-IsSound vm_allocator_config (omega arith);
  balanced = new_accountant-Within config.gas_limit small;
  held = new_vm3d-Held host config;
}

module _ (limit : ℕ) (small : limit < 2 ^ 63) where
  pub execute-IsWell :
      {F : Type 0} (float : FloatOps F) (host : Host) (vm : Vm3D) (program : List ℕ)
      → length program < 2 ^ 64
      → IsWell limit vm
      → IsWell limit (execute float host vm program).0
  unfolding execute
  execute-IsWell float host vm program short w =
      run-keeps float host (IsWell limit) program
        (λ vm' on w'.
          let r = round-Round float host program vm' (goes_on-inside program vm' on) short in
          record {
            sound = r.sound w'.sound;
            balanced = r.gas limit small w'.balanced;
            held = r.held w'.held;
          })
        (length program + 1) (begin vm)
        (record {
          sound = w.sound;
          balanced = w.balanced;
          held = record { registers = w.held.registers; cache = w.held.cache };
        })

  module _ (host : Host) (now : ℕ) where
    charged-IsWell :
        (vm : Vm3D) (r : GasAccountant3D × Bool)
        → Sound vm.core
        → Within limit r.0
        → Held vm.core
        → IsWell limit (charged vm r).0
    unfolding charged
    charged-IsWell vm (g, true) s b k = record { sound = s; balanced = b; held = k }
    charged-IsWell vm (g, false) s b k = record { sound = s; balanced = b; held = k }

    -- The memory plays no part in what is held.
    beside : (vm : Vm3D) (mm : MemoryManager) → Held vm.core → Held (with_memory vm mm).core
    beside vm mm k = record { registers = k.registers; cache = k.cache }

    after_store-IsWell :
        (vm : Vm3D) (addr : Address3D) (content : List ℕ) (mm : MemoryManager)
        → Within limit vm.gas_account
        → Held vm.core
        → IsSound mm.allocator
        → IsWell limit (after_store host now vm addr content mm).0
    unfolding after_store
    after_store-IsWell vm addr content mm b k s =
        charged-IsWell _ _ (update_access_at-sound now mm addr s)
          (consume-Within limit small vm.gas_account b _)
          (record {
            registers = k.registers;
            cache = put_cached-IsHeld vm.core.cache addr content k.cache;
          })

    store_again-IsWell :
        (vm : Vm3D) (addr : Address3D) (content : List ℕ) (r : MemoryManager × Stored)
        → Within limit vm.gas_account
        → Held vm.core
        → IsSound r.0.allocator
        → IsWell limit (store_again host now vm addr content r).0
    unfolding store_again
    store_again-IsWell vm addr content (mm, stored) b k s =
        after_store-IsWell vm addr content mm b k s
    store_again-IsWell vm addr content (mm, store_refused e) b k s = record {
      sound = s;
      balanced = b;
      held = beside vm mm k;
    }
    store_again-IsWell vm addr content (mm, store_crashed) b k s = record {
      sound = s;
      balanced = b;
      held = beside vm mm k;
    }

    store_in_block-IsWell :
        (vm : Vm3D) (content : List ℕ) (ptr : ℕ) (o : Option Allocation)
        → IsWell limit vm
        → IsWell limit (store_in_block host now vm content ptr o).0
    unfolding store_in_block track_allocation log_access
    store_in_block-IsWell vm content ptr none w = w
    store_in_block-IsWell vm content ptr (some object) w =
        store_again-IsWell vm object.address content _ w.balanced w.held (
          store3d-sound now (track_allocation now vm.core.memory ptr object) object.address content
            w.sound)

    store_anew-IsWell :
        (vm : Vm3D) (content : List ℕ) (r : Allocator3D × Result)
        → Within limit vm.gas_account
        → Held vm.core
        → IsSound r.0
        → IsWell limit (store_anew host now vm content r).0
    unfolding store_anew
    store_anew-IsWell vm content (a, got ptr) b k s =
        store_in_block-IsWell (with_vm_allocator vm a) content ptr (deref a.heap ptr)
          (record { sound = s; balanced = b; held = beside vm _ k })
    store_anew-IsWell vm content (a, nothing) b k s = record {
      sound = s;
      balanced = b;
      held = beside vm _ k;
    }
    store_anew-IsWell vm content (a, panicked) b k s = record {
      sound = s;
      balanced = b;
      held = beside vm _ k;
    }
    store_anew-IsWell vm content (a, failed e) b k s = record {
      sound = s;
      balanced = b;
      held = beside vm _ k;
    }

    store_first-IsWell :
        (vm : Vm3D) (addr : Address3D) (content : List ℕ) (r : MemoryManager × Stored)
        → Within limit vm.gas_account
        → Held vm.core
        → IsSound r.0.allocator
        → IsWell limit (store_first host now vm addr content r).0
    unfolding store_first
    store_first-IsWell vm addr content (mm, stored) b k s =
        after_store-IsWell vm addr content mm b k s
    store_first-IsWell vm addr content (mm, store_refused address_not_allocated) b k s =
        store_anew-IsWell (with_memory vm mm) content _ b (beside vm mm k)
          (allocate-IsSound false now mm.allocator (u32 (length content)) region_type_heap 0 s)
    store_first-IsWell vm addr content (mm, store_refused _) b k s = record {
      sound = s;
      balanced = b;
      held = beside vm mm k;
    }
    store_first-IsWell vm addr content (mm, store_crashed) b k s = record {
      sound = s;
      balanced = b;
      held = beside vm mm k;
    }

    pub vm_store3d-IsWell :
        (vm : Vm3D) (addr : Address3D) (content : List ℕ)
        → IsWell limit vm
        → IsWell limit (vm_store3d host now vm addr content).0
    unfolding vm_store3d
    vm_store3d-IsWell vm addr content w =
        store_first-IsWell vm addr content _ w.balanced w.held
          (store3d-sound now vm.core.memory addr content w.sound)

    register_block-IsWell :
        (vm : Vm3D) (ptr : ℕ) (o : Option Allocation)
        → IsWell limit vm
        → IsWell limit (register_block now vm ptr o).0
    unfolding register_block track_allocation log_access
    register_block-IsWell vm ptr none w = w
    register_block-IsWell vm ptr (some object) w = record {
      sound = w.sound;
      balanced = w.balanced;
      held = beside vm _ w.held;
    }

    finish_allocate-IsWell :
        (vm : Vm3D) (r : Allocator3D × Result)
        → Within limit vm.gas_account
        → Held vm.core
        → IsSound r.0
        → IsWell limit (finish_allocate now vm r).0
    unfolding finish_allocate
    finish_allocate-IsWell vm (a, got ptr) b k s =
        register_block-IsWell (with_vm_allocator vm a) ptr (deref a.heap ptr)
          (record { sound = s; balanced = b; held = beside vm _ k })
    finish_allocate-IsWell vm (a, nothing) b k s = record {
      sound = s;
      balanced = b;
      held = beside vm _ k;
    }
    finish_allocate-IsWell vm (a, panicked) b k s = record {
      sound = s;
      balanced = b;
      held = beside vm _ k;
    }
    finish_allocate-IsWell vm (a, failed e) b k s = record {
      sound = s;
      balanced = b;
      held = beside vm _ k;
    }

    pub allocate_memory-IsWell :
        (vm : Vm3D) (size kind : ℕ)
        → IsWell limit vm
        → IsWell limit (allocate_memory now vm size kind).0
    unfolding allocate_memory
    allocate_memory-IsWell vm size kind w =
        finish_allocate-IsWell vm _ w.balanced w.held
          (allocate-IsSound false now (allocator_of vm.core) size kind 0 w.sound)

    pub vm_load3d-IsWell :
        (vm : Vm3D) (addr : Address3D) (size : ℕ)
        → IsWell limit vm
        → IsWell limit (vm_load3d now vm addr size).0
    unfolding vm_load3d
    vm_load3d-IsWell vm addr size w = record {
      sound = subst IsSound (sym (load3d-allocator now vm.core.memory addr size)) w.sound;
      balanced = w.balanced;
      held = beside vm _ w.held;
    }
