-- ===== src/Ahci/Flags.antt =====
-- The flags of src/ahci.rs: the constants of `HBACapabilities`, `GlobalHBAControl` and `PortInterrupt`.
use capucho_os.Base.{ℕ, ◌<<<◌}

-- `HBACapabilities`.
pub data CapabilityFlag : Type 0 where
  sxs_support ems_support ccc_support ps_capable ss_capable pio_multi_drq_support fbss_support
        pm_support ahci_only clo_support al_support alp_support ss_support mps_support sntf_support
        ncq_support supports_64_addresses :
      CapabilityFlag

abbrev pub capability_bits : CapabilityFlag → ℕ
capability_bits sxs_support = 1 <<< 5
capability_bits ems_support = 1 <<< 6
capability_bits ccc_support = 1 <<< 7
capability_bits ps_capable = 1 <<< 13
capability_bits ss_capable = 1 <<< 14
capability_bits pio_multi_drq_support = 1 <<< 15
capability_bits fbss_support = 1 <<< 16
capability_bits pm_support = 1 <<< 17
capability_bits ahci_only = 1 <<< 18
capability_bits clo_support = 1 <<< 24
capability_bits al_support = 1 <<< 25
capability_bits alp_support = 1 <<< 26
capability_bits ss_support = 1 <<< 27
capability_bits mps_support = 1 <<< 28
capability_bits sntf_support = 1 <<< 29
capability_bits ncq_support = 1 <<< 30
capability_bits supports_64_addresses = 1 <<< 31

-- `GlobalHBAControl`.
pub data ControlFlag : Type 0 where
  hba_reset int_enable mrsm ahci_enable : ControlFlag

abbrev pub control_bits : ControlFlag → ℕ
control_bits hba_reset = 1
control_bits int_enable = 1 <<< 1
control_bits mrsm = 1 <<< 2
control_bits ahci_enable = 1 <<< 31

-- `PortInterrupt`.
pub data InterruptFlag : Type 0 where
  d2h_reg_fis_int pio_setup_fis_int dma_setup_fis_int set_dev_bits_fis_int unknown_fis_int
        prd_processed_int port_connect_change mechanical_presence phy_ready_change
        bad_port_mul_status overflow if_non_fatal_error if_fatal_error host_data_error
        host_fatal_error task_file_error cold_port_detect :
      InterruptFlag

abbrev pub interrupt_bits : InterruptFlag → ℕ
interrupt_bits d2h_reg_fis_int = 1
interrupt_bits pio_setup_fis_int = 1 <<< 1
interrupt_bits dma_setup_fis_int = 1 <<< 2
interrupt_bits set_dev_bits_fis_int = 1 <<< 3
interrupt_bits unknown_fis_int = 1 <<< 4
interrupt_bits prd_processed_int = 1 <<< 5
interrupt_bits port_connect_change = 1 <<< 6
interrupt_bits mechanical_presence = 1 <<< 7
interrupt_bits phy_ready_change = 1 <<< 22
interrupt_bits bad_port_mul_status = 1 <<< 23
interrupt_bits overflow = 1 <<< 24
interrupt_bits if_non_fatal_error = 1 <<< 26
interrupt_bits if_fatal_error = 1 <<< 27
interrupt_bits host_data_error = 1 <<< 28
interrupt_bits host_fatal_error = 1 <<< 29
interrupt_bits task_file_error = 1 <<< 30
interrupt_bits cold_port_detect = 1 <<< 31
