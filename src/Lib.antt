-- ===== src/Lib.antt =====
-- The firmware of the drDRO mainboard, an STM32F411 board for digital readouts: what its flash
-- holds, how settings are stored, how the bootloader chooses and starts an application, how new images
-- arrive (over the serial line and over Ethernet), the command lines of the bootloader and of the
-- application, the states of the network, and the inputs and outputs.
--
-- The flash is cut into the bootloader (sector 0), two settings slots (sectors 1 and 2), the Exec
-- region (sector 5), which alone is run, and two banks (sectors 6 and 7) that store images. The
-- bootloader loads the newest valid settings, copies the selected bank into Exec where it is not
-- the one recorded there, records it and jumps. Settings are written to the slot that is not the
-- newest, so that a write that is cut off leaves the newest as it was.
--
--   Base      shared names, Boolean tests, lists, C's integer widths, lemmas on xor
--   Crc       settings_crc32 of firmware/shared/Settings.h
--   Layout    the addresses of firmware/shared/Bootloader.h
--   Settings  the rest of firmware/shared/Settings.h; a settings_t is its bytes by offset
--             (Settings/Fields), a flash image is memory seen from the slot's base
--   Hal       the vendor's flash driver as an interface: operations and their documented
--             behaviour; Hal/Sim has simulated parts that satisfy it, one of
--             which insists on the unlock and on erased words
--   Flash     firmware/bootloader/src/flash.c; a Session is the device and the module's variables
--   Boot      firmware/bootloader/src/main.c: bl_image_valid, bl_bank_trusted, bl_load_bank,
--             bl_jump_to_exec, bl_boot_app and main up to the CLI; Boot/Led its LED
--   SettingsStore  firmware/app/src/SettingsStore.c: the application's save of the settings, the
--             commit and selection of a bank; SettingsStore/Shared is the part of
--             rampsSharedData_t (firmware/app/include/Ramps.h) that the settings keep
--   FwUpdate  firmware/app/src/FwUpdate.c: the flash session, and in FwUpdate/Session the update
--             session; what the socket and the clock answer to a round of the task is a Poll
--   Ymodem    firmware/bootloader/src/ymodem.c: the receiver; the serial line is the list of what
--             the UART answers in turn
--   BlCli     firmware/bootloader/src/bl_cli.c: framing (Text), the commands (Commands), the line
--             with its checksum and the reader of lines (Process)
--   Protocol  firmware/app/src/Protocol.c: the assembly of lines, also that of NetCli.c; the output
--             buffer (Output); the registry of variables (Registry) on the bytes of rampsSharedData_t
--             and its values as text (Values); the commands (Variables, Commands, Updates) on the
--             state App; ProtocolProcessLine and the service of the serial line (Process)
--   Net       firmware/app/src/Net.c: states, addresses and PHY modes; Net/Task the rounds of NetTask,
--             each on a Round: the link, what the DHCP client does, and the ticks that it reads
--   Scales    firmware/app/src/Scales.c: encoder timers and their filters
--   Serial    the receive ring of firmware/app/src/usart.c
--   Din, Aout firmware/app/src/Din.c and Aout.c: debouncing, and the frames of the converter
--
-- A C function that returns 0 or -1 returns true or false beside the new state. Machine words
-- carry their wrap-around (u32 and the like). Loops recur on the number of rounds left, which is
-- len / 4 words, 512 chunks of 256 bytes and 8 bits. The loop of the YMODEM receiver, which a silent
-- sender keeps going for ever, and that of the command line take the number of rounds as an argument;
-- a batch of n blocks needs n + 2. The copy into the output buffer needs two turns for a byte.
--
-- Not modelled: the vendor's HAL (a parameter of Flash, Boot, Aout and Scales), clock, pin and UART
-- set-up; the numbers of the C library (the parameter Numbers of Protocol); in Net the register
-- snapshot, the optional self-test and the SPI callbacks, and in NetCli the socket; the motion
-- interrupt and its floating-point ramps; FreeRTOS with the interleaving of its tasks, and the W5500
-- library, whose answers are arguments; the Python host software. That a write succeeds is assumed only of a part without a defect
-- (Works in Hal), which has to be unlocked and erased first. A power cut in the middle of a word
-- or an erase is covered as far as the statements quantify over what the sector holds afterwards.
pub mod Base
pub mod Crc
pub mod Layout
pub mod Hal
pub mod Settings
pub mod Flash
pub mod Boot
pub mod SettingsStore
pub mod FwUpdate
pub mod Ymodem
pub mod BlCli
pub mod Protocol
pub mod Din
pub mod Aout
pub mod Scales
pub mod Net
pub mod Serial
