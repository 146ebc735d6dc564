-- ===== src/Types/Constants.antt =====
-- internal/types/constants.go.
use memory3d.Prelude.{ℕ}

abbrev pub max_x_regions : ℕ
max_x_regions = 256

abbrev pub max_y_planes : ℕ
max_y_planes = 65535

abbrev pub max_z_offset : ℕ
max_z_offset = 65534

abbrev pub plane_size : ℕ
plane_size = 65535

abbrev pub gas_base_allocation : ℕ
gas_base_allocation = 3

abbrev pub gas_per_byte : ℕ
gas_per_byte = 1

abbrev pub gas_y_promotion : ℕ
gas_y_promotion = 10
