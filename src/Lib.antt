-- ===== src/Lib.antt =====
-- picore, a C library for the RP2040: its FIFO, task scheduler, pointer queue, byte order
-- helpers, checksums, I2C and SPI transfers, EEPROMs, port expanders, LEDs, UART, USB CDC, GPIO
-- interrupts, binary information, USB serial number, buttons and Modbus RTU server.
--
-- The parts and how they interact. The FIFO (src/fifo) is a byte ring buffer between one producer
-- and one consumer; the end of a write wakes the consumer's task and the end of a read the
-- producer's. The pointer queue (src/queue) does the same for pointers. The scheduler (src/task)
-- keeps a list of pending tasks and one of waiting tasks, ordered by their deadlines, with one
-- alarm of the SDK for the earliest. The Modbus server (src/modbus) gathers what arrives in its
-- receive FIFO until it is a frame, serves it in the same buffer with the application's handlers,
-- and writes the reply to its transmit FIFO. The UART (src/uart) and USB CDC (src/cdc_interface) move
-- bytes between the hardware and a FIFO in each direction, in tasks that the FIFOs and interrupts wake.
-- The EEPROMs (src/i2c_eeprom) and expanders (src/i2c_gpio) send messages on an I2C bus; a strip of
-- LEDs (src/pixel_led) is fed by an interrupt between a task that starts a transfer and one that ends it.
--
-- Where each part is modelled.
--   Base: shared names; lists, machine words with their wrap-around, a window of a ring, the laws
--     of `^`, `|` and `&`.
--   Error: src/error/include/pr/error.h, `pr_error_t`.
--   Fifo: src/fifo/fifo.c, each function under its name without `pr_fifo_` (`free_space` is
--     `pr_fifo_free`). A critical section under the spin lock is one function. Inv has the
--     invariant, Contents the stored bytes, Write and Read the loops, Steps the
--     interleavings of callers that give back whole pieces, Short what a shorter one does.
--   Queue: src/queue/queue.c. `insert` and `remove` are the critical sections of push and pop. Spec
--     is the bounded list that Refine compares with.
--   Task: src/task/task.c on a heap of tasks and queues; Task has the list operations and Task/Api
--     the public functions, over the interface Sdk for the clock and the alarms. Chain, Links and
--     Lists are about linked lists; Inv, Wait and Pop about the critical sections' list operations;
--     Exec, Timer, Calls and Run about the functions.
--   Endian: src/endian/include/pr/endian.h.
--   Crc32: src/crc32/crc32.c; Bitwise is the checksum by single bits. I2cBus: src/i2c_bus/i2c_bus.c. GpioIrq: src/gpio_irq/gpio_irq.c.
--   SpiMaster: src/spi_master/spi_master.c; Bitrev is its table. I2cEeprom: src/i2c_eeprom/eeprom.c, a
--     definition for both chips where their functions differ in constants alone. I2cGpio:
--     src/i2c_gpio/i2c_gpio.c. Uart: src/uart/uart.c. CdcInterface: src/cdc_interface/cdc_interface.c.
--     PixelLed: src/pixel_led/pixel_led.c. BinaryInfo: src/binary_info_reader/bi_reader.c.
--     TinyUsb: src/tiny_usb/tiny_usb.c; Reset is `PR_TINY_USB_IMPL` of src/tiny_usb/include/pr/tiny_usb.h.
--     Button: src/button/button.c; Presses follows any number of its samples. StdioFifo: src/stdio_fifo/stdio_fifo.c. I2sMasterOut:
--     src/i2s_master_out/include/pr/i2s_master_out.h. `build_id_get` of BinaryInfo is src/build_id/build_id.c.
--   Modbus: src/modbus. Crc is modbus_crc16.c; Reads, Writes and DevId are the cases of
--     `bus_req_handle`, Request the function itself with `modbus_tx_try`, Frame the sizes of frames,
--     Worker the two tasks and `pr_modbus_init`. Spec is what the server promises: the reply to each
--     request as a value, its coils packed (Spec/Pack), its objects listed (Spec/Objects), and the frame
--     that carries it. Request/Values, Coils, Stores and Sent compare the frames sent with it,
--     Request/Identity and Identified those of the device identification; Request/Transmit and Delivered
--     follow a reply through the transmit FIFO, while its consumer reads, Completed to its end. Worker/Safe is about which
--     bytes make the server act, Worker/Gather and Serve about a whole turn, from the receive FIFO to the reply.
--
-- Parameters. `exec` (`pr_task_exec`) in Fifo, Queue and Modbus acts on an arbitrary state W. The
-- results of `malloc` and `spin_lock_claim_unused`, the SDK's clock, alarms, transfers and pins, the tasks' handlers
-- and the application's Modbus handlers are arguments.
--
-- Fuel. `pr_fifo_write` runs on `size + 1` rounds, since each round but the last moves a byte.
-- `pr_fifo_read` tests an uninitialised variable (an inner declaration shadows it), so the values
-- that it reads are a parameter `outer`, and the fuel is the caller's. The loops over the waiting
-- list run on any fuel above its length. `run_until_empty` runs for a given number of tasks. The
-- loop of the device identification takes its fuel as an argument; `none` there also stands for a
-- store behind the end of the buffer.
--
-- The loops of the EEPROM's writes, of SPI transfers and of the UART's tasks take fuel; the first two
-- are given enough by the functions themselves, the last as an argument.
--
-- The searches of the binary information take fuel as an argument, and two rounds more than the table
-- has places are enough. The pointer at an address of the table leads to an entry by a parameter.
--
-- Interfaces. What a driver uses of the SDK, of TinyUSB or of an I2C bus is a record of functions on a
-- state W; what a theorem needs of the hardware is a record of laws over it (IsExchange, IsMemory,
-- IsExpander, IsReceiver, IsTransmitter, IsUsb, IsPio, IsScheduler), filled by an example in the Tests
-- module of the part.
--
-- Not modelled: the macro of struct_compose, which is pointer arithmetic; chip_uid32 and the set-up of
-- i2s_master_out, which are declared and nowhere defined; the programs under test/. The FIFO's critical
-- sections are interleaved, of callers that give back each piece whole. An alarm of the SDK is added
-- before its callback runs: that `add_alarm_at` may call `ptask_alarm` at once, for a deadline that has
-- passed, is not modelled. Other interrupts appear as the steps of a relation or not at all.
pub mod Base
pub mod BinaryInfo
pub mod Button
pub mod CdcInterface
pub mod Crc32
pub mod Endian
pub mod Error
pub mod Fifo
pub mod GpioIrq
pub mod I2cBus
pub mod I2cEeprom
pub mod I2cGpio
pub mod I2sMasterOut
pub mod Modbus
pub mod PixelLed
pub mod Queue
pub mod SpiMaster
pub mod StdioFifo
pub mod Task
pub mod TinyUsb
pub mod Uart
